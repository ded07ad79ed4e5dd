-- ===== src/DeepCopy/Methods/Team.antt =====
-- api/v1beta1/zz_generated.deepcopy.go: the methods of OpsgenieTeam and of the structs in it.
use opsgenie_operator.Prelude.{Option}
use opsgenie_operator.Api.Team.{OpsgenieTeamMember, OpsgenieTeamStatus}
use opsgenie_operator.DeepCopy.Types.{Layout, OpsgenieTeamSpec, OpsgenieTeam, OpsgenieTeamList}
use opsgenie_operator.DeepCopy.Objects.{Object}
use opsgenie_operator.DeepCopy.Memory.{Pointer, M, pure, ◌>>=◌, copy_flat, copy_pointer}
use opsgenie_operator.DeepCopy.Arrays.{team_status_stored}
use opsgenie_operator.DeepCopy.PartArrays.{team_member_stored, team_spec_stored}
use opsgenie_operator.DeepCopy.KindArrays.{team_stored, team_list_stored}
use opsgenie_operator.DeepCopy.Library.{Library}
use opsgenie_operator.DeepCopy.Methods.Resource.{
  resource_deep_copy_into, resource_list_deep_copy_into,
}

module _ {layout : Layout} where
  unfoldable pub team_member_deep_copy_into :
      OpsgenieTeamMember → M (Object layout) OpsgenieTeamMember
  team_member_deep_copy_into x = pure x

  unfoldable pub team_member_deep_copy : Option Pointer → M (Object layout) (Option Pointer)
  team_member_deep_copy = copy_pointer team_member_deep_copy_into

  unfoldable pub team_spec_deep_copy_into : OpsgenieTeamSpec → M (Object layout) OpsgenieTeamSpec
  team_spec_deep_copy_into x = do
    members ← copy_flat OpsgenieTeamMember x.members
    pure (record x { members = members })

  unfoldable pub team_spec_deep_copy : Option Pointer → M (Object layout) (Option Pointer)
  team_spec_deep_copy = copy_pointer team_spec_deep_copy_into

module _ {layout : Layout} (lib : Library layout) where
  unfoldable pub team_status_deep_copy_into :
      OpsgenieTeamStatus → M (Object layout) OpsgenieTeamStatus
  team_status_deep_copy_into x = do
    last_synced_time ← lib.copy_time x.last_synced_time
    pure (record x { last_synced_time = last_synced_time })

  unfoldable pub team_status_deep_copy : Option Pointer → M (Object layout) (Option Pointer)
  team_status_deep_copy = copy_pointer team_status_deep_copy_into

  unfoldable pub team_deep_copy_into : OpsgenieTeam layout → M (Object layout) (OpsgenieTeam layout)
  team_deep_copy_into =
      resource_deep_copy_into lib team_spec_deep_copy_into team_status_deep_copy_into

  unfoldable pub team_deep_copy : Option Pointer → M (Object layout) (Option Pointer)
  team_deep_copy = copy_pointer team_deep_copy_into

  unfoldable pub team_list_deep_copy_into :
      OpsgenieTeamList layout → M (Object layout) (OpsgenieTeamList layout)
  team_list_deep_copy_into = resource_list_deep_copy_into lib team_deep_copy_into

  unfoldable pub team_list_deep_copy : Option Pointer → M (Object layout) (Option Pointer)
  team_list_deep_copy = copy_pointer team_list_deep_copy_into
