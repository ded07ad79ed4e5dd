-- ===== src/Team/Tests.antt =====
-- Runs of the team controller over `Team.Memory`, and the theorems at concrete data.
use mathlib.Core.List.{Nodup, Perm}
use opsgenie_operator.Prelude.Pigeonhole.{Nodup-pair}
use text.Mathlib.TextEquality.{eq_iff}
use opsgenie_operator.Prelude.{
  false, ◌≡◌, ◌↔◌, refl, [], ◌∷◌, none, some, pos, map, All, string_eq, arith,
}
use opsgenie_operator.Exec.Trace.{first}
use opsgenie_operator.Kube.{ObjectKey, key_eq}
use opsgenie_operator.Api.Team.{OpsgenieTeamMember, OpsgenieTeam}
use opsgenie_operator.Opsgenie.Team.{GetTeamResult}
use opsgenie_operator.Team.Members.{map_team_member, map_team_members, is_members_update_required}
use opsgenie_operator.Team.Comparison.{
  is_members_update_required-eq-false, is_members_update_required_repeated,
}
use opsgenie_operator.Team.Reconcile.{reconcile, create_request}
use opsgenie_operator.Team.Trace.{
  traced, judged_writes, created, IsNoCreate, IsNoUpdate, EndsAs, reconcile_team-writes,
  reconcile_team-EndsAs,
}
use opsgenie_operator.Team.Memory.{World, memory}

abbrev ann : OpsgenieTeamMember
ann = record { user_id = "ann@x.org"; role = "admin" }

abbrev bob : OpsgenieTeamMember
bob = record { user_id = "bob@x.org"; role = "user" }

abbrev key : ObjectKey
key = record { namespace = "ops"; name = "backend" }

abbrev backend : OpsgenieTeam
backend = record {
  metadata = key;
  spec = record { name = "Backend"; description = "the backend team"; members = ann ∷ bob ∷ [] };
  status = record { team_id = ""; status = ""; last_synced_time = pos 0 };
}

-- A team of the same name, with other members, that is there before the resource.
abbrev found_team : GetTeamResult
found_team = record {
  id = "T9";
  name = "Backend";
  description = "the backend team";
  members = map_team_member ann ∷ [];
}

abbrev before : World
before = record { resource = backend; team = some found_team }

abbrev after : World
after = record {
  resource = record backend {
    status = record { team_id = "T9"; status = "Active"; last_synced_time = pos 7 };
  };
  team = some (record found_team { members = map_team_member ann ∷ map_team_member bob ∷ [] });
}

distinct_users : Nodup (map (λ m. m.user_id) backend.spec.members)
distinct_users = Nodup-pair (ground (arith, eq_iff "ann@x.org" "bob@x.org"))

is_members_update_required-eq-false_example :
    (is_members_update_required backend found_team ≡ false)
    ↔ Perm (map_team_members backend.spec.members) found_team.members
is_members_update_required-eq-false_example =
    is_members_update_required-eq-false backend found_team distinct_users

abbrev twice_listed : OpsgenieTeam
twice_listed = record backend { spec = record (backend.spec) { members = ann ∷ ann ∷ [] } }

abbrev other_team : GetTeamResult
other_team = record found_team { members = map_team_member ann ∷ map_team_member bob ∷ [] }

is_members_update_required_repeated_example :
    (is_members_update_required twice_listed other_team ≡ false)
    × (¬ Perm (map_team_members twice_listed.spec.members) other_team.members)
is_members_update_required_repeated_example =
    is_members_update_required_repeated twice_listed other_team ann (map_team_member bob) refl refl
      (ground (arith, eq_iff "bob@x.org" "ann@x.org"))

reconcile_team-writes_example :
    let log = (reconcile (traced memory) key (record before { team = none }, [])).1.1 in
    (⊥ → All IsNoCreate log)
    × ((¬ ⊥) → (first log ≡ some (created (create_request backend))) × All IsNoUpdate log)
unfolding key_eq string_eq
reconcile_team-writes_example =
    reconcile_team-writes memory key backend (record before { team = none }) refl

reconcile_team-EndsAs_example :
    let end = reconcile (judged_writes memory) key (before, []) in
    EndsAs (memory.client.get key before).0 end.1.1 end.0
    × ((reconcile memory key before).0 ≡ end.0)
reconcile_team-EndsAs_example = reconcile_team-EndsAs memory key before
