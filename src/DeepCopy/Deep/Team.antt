-- ===== src/DeepCopy/Deep/Team.antt =====
-- The methods of OpsgenieTeam and of the structs in it make deep copies.
use opsgenie_operator.Prelude.{refl}
use opsgenie_operator.Api.Team.{OpsgenieTeamMember, OpsgenieTeamStatus}
use opsgenie_operator.DeepCopy.Types.{Layout, OpsgenieTeamSpec, OpsgenieTeam, OpsgenieTeamList}
use opsgenie_operator.DeepCopy.Objects.{Object}
use opsgenie_operator.DeepCopy.Memory.{copy_flat}
use opsgenie_operator.DeepCopy.Arrays.{team_status_stored}
use opsgenie_operator.DeepCopy.PartArrays.{team_member_stored, team_spec_stored}
use opsgenie_operator.DeepCopy.KindArrays.{team_stored, team_list_stored}
use opsgenie_operator.DeepCopy.Library.{Library}
use opsgenie_operator.DeepCopy.Equal.{Equal, IsDeepCopy, Plain, SliceEqual}
use opsgenie_operator.DeepCopy.Copies.{pure-IsDeepCopy}
use opsgenie_operator.DeepCopy.Flat.{copy_flat-IsDeepCopy}
use opsgenie_operator.DeepCopy.Fields.{OneField, copy_one-IsDeepCopy}
use opsgenie_operator.DeepCopy.Documented.{Documented}
use opsgenie_operator.DeepCopy.Deep.Resource.{
  ResourceEqual, ResourceListEqual, resource_deep_copy_into-IsDeepCopy,
  resource_list_deep_copy_into-IsDeepCopy,
}
use opsgenie_operator.DeepCopy.Methods.Team.{
  team_member_deep_copy_into, team_spec_deep_copy_into, team_status_deep_copy_into,
  team_deep_copy_into, team_list_deep_copy_into,
}

module _ {layout : Layout} where
  pub team_member_deep_copy_into-IsDeepCopy :
      IsDeepCopy {Object = Object layout} Plain team_member_deep_copy_into
  unfolding team_member_deep_copy_into
  team_member_deep_copy_into-IsDeepCopy = pure-IsDeepCopy

  abbrev pub TeamSpecEqual : Equal (Object layout) OpsgenieTeamSpec
  TeamSpecEqual =
      OneField (λ x. x.members) (λ x a. record x { members = a })
        (SliceEqual {A = OpsgenieTeamMember} Plain)

  pub team_spec_deep_copy_into-IsDeepCopy :
      IsDeepCopy {Object = Object layout} TeamSpecEqual team_spec_deep_copy_into
  unfolding team_spec_deep_copy_into
  team_spec_deep_copy_into-IsDeepCopy =
      copy_one-IsDeepCopy (λ x. x.members) (λ x a. record x { members = a })
        (SliceEqual {A = OpsgenieTeamMember} Plain) (copy_flat OpsgenieTeamMember) (λ x a. refl)
        copy_flat-IsDeepCopy

  abbrev pub TeamStatusEqual : Equal (Object layout) OpsgenieTeamStatus
  TeamStatusEqual =
      OneField (λ x. x.last_synced_time) (λ x a. record x { last_synced_time = a }) Plain

module _ {layout : Layout} {lib : Library layout} (doc : Documented lib) where
  pub team_status_deep_copy_into-IsDeepCopy :
      IsDeepCopy {Object = Object layout} TeamStatusEqual (team_status_deep_copy_into lib)
  unfolding team_status_deep_copy_into
  team_status_deep_copy_into-IsDeepCopy =
      copy_one-IsDeepCopy (λ x. x.last_synced_time) (λ x a. record x { last_synced_time = a }) Plain
        lib.copy_time (λ x a. refl) doc.time

  abbrev pub TeamEqual : Equal (Object layout) (OpsgenieTeam layout)
  TeamEqual = ResourceEqual doc TeamSpecEqual TeamStatusEqual

  pub team_deep_copy_into-IsDeepCopy : IsDeepCopy TeamEqual (team_deep_copy_into lib)
  unfolding team_deep_copy_into
  team_deep_copy_into-IsDeepCopy =
      resource_deep_copy_into-IsDeepCopy doc TeamSpecEqual TeamStatusEqual team_spec_deep_copy_into
        (team_status_deep_copy_into lib) team_spec_deep_copy_into-IsDeepCopy
        team_status_deep_copy_into-IsDeepCopy

  abbrev pub TeamListEqual : Equal (Object layout) (OpsgenieTeamList layout)
  TeamListEqual = ResourceListEqual doc TeamEqual

  pub team_list_deep_copy_into-IsDeepCopy : IsDeepCopy TeamListEqual (team_list_deep_copy_into lib)
  unfolding team_list_deep_copy_into
  team_list_deep_copy_into-IsDeepCopy =
      resource_list_deep_copy_into-IsDeepCopy doc TeamEqual (team_deep_copy_into lib)
        team_deep_copy_into-IsDeepCopy
