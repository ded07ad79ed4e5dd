-- ===== src/Team/Members.antt =====
-- `mapTeamMembers`, `isMembersUpdateRequired` and `isUpdateRequired`.
use opsgenie_operator.Prelude.{
  String, Bool, true, false, ◌||◌, List, [], ◌∷◌, Option, none, some, length, ◌!=◌, nat_eq,
  string_eq, if◌then◌else◌,
}
use opsgenie_operator.Prelude.Dict.{Dict, lookup, insert}
use opsgenie_operator.Api.Team.{OpsgenieTeamMember, OpsgenieTeam}
use opsgenie_operator.Opsgenie.Team.{Member, GetTeamResult}

abbrev pub map_team_member : OpsgenieTeamMember → Member
map_team_member m = record { username = m.user_id; role = m.role }

unfoldable pub map_team_members : List OpsgenieTeamMember → List Member
map_team_members [] = []
map_team_members (m ∷ members) = map_team_member m ∷ map_team_members members

-- The loop that fills `existingMembersMap`.
unfoldable pub existing_members_map : Dict String → List Member → Dict String
existing_members_map roles [] = roles
existing_members_map roles (m ∷ members) =
    existing_members_map (insert m.username m.role roles) members

-- `!exists || existingRole != newMember.Role`
abbrev pub is_member_changed : Option String → String → Bool
is_member_changed none role = true
is_member_changed (some existing_role) role = existing_role != role

-- The loop over the members of the resource.
unfoldable pub is_any_changed : Dict String → List OpsgenieTeamMember → Bool
is_any_changed roles [] = false
is_any_changed roles (m ∷ members) =
    is_member_changed (lookup m.user_id roles) m.role || is_any_changed roles members

unfoldable pub is_members_update_required : OpsgenieTeam → GetTeamResult → Bool
unfolding existing_members_map is_any_changed
is_members_update_required cr existing =
    if length cr.spec.members != length existing.members
    then true
    else is_any_changed (existing_members_map [] existing.members) cr.spec.members

unfoldable pub is_update_required : OpsgenieTeam → GetTeamResult → Bool
is_update_required cr existing =
    cr.spec.name != existing.name || cr.spec.description != existing.description
