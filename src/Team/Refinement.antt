-- ===== src/Team/Refinement.antt =====
-- The reconciler of teams against the abstract view.
use opsgenie_operator.Prelude.{String, ◌≡◌, string_eq, arith, Option, none, some}
use opsgenie_operator.Exec.{Reply, done, failed, ok, five_minutes}
use opsgenie_operator.Exec.Keeps.{Answers, IsDone}
use opsgenie_operator.Kube.{ObjectKey}
use opsgenie_operator.Api.Team.{OpsgenieTeam}
use opsgenie_operator.Opsgenie.Team.{GetTeamResult, CreateTeamRequest, UpdateTeamRequest}
use opsgenie_operator.Team.Reconcile.{
  OpsgenieTeamReconciler, reconcile, sync, sync_existing, create_missing,
}
use opsgenie_operator.Team.View.{view, TeamView}

-- The abstract state: the team that Opsgenie finds by a name, if it finds one.
abbrev pub team_view : Reply GetTeamResult → Option TeamView
team_view (done t) = some (view t)
team_view (failed e) = none

abbrev pub id_of : Reply GetTeamResult → Option String
id_of (done t) = some t.id
id_of (failed e) = none

-- The id that a resource's status records, if there is a resource.
abbrev pub recorded_id : Reply OpsgenieTeam → Option String
recorded_id (done cr) = some cr.status.team_id
recorded_id (failed e) = none

-- The writes succeed.
pub record IsWritable {W : Type 0} (r : OpsgenieTeamReconciler W) : Type 0 where
  pub update_status : (c : OpsgenieTeam) → Answers IsDone (r.client.update_status c)
  pub create : (q : CreateTeamRequest) → Answers IsDone (r.opsgenie_client.create q)
  pub update : (q : UpdateTeamRequest) → Answers IsDone (r.opsgenie_client.update q)

module _ {W : Type 0} (r : OpsgenieTeamReconciler W) (writable : IsWritable r) where
  sync_existing-done :
      (cr : OpsgenieTeam) (t : GetTeamResult) (w : W) → (sync_existing r cr t w).0 ≡ ok five_minutes
  unfolding sync_existing
  sync_existing-done cr t w = grind (arith, writable.update_status, writable.update)

  create_missing-done : (cr : OpsgenieTeam) (w : W) → (create_missing r cr w).0 ≡ ok five_minutes
  unfolding create_missing
  create_missing-done cr w = grind (arith, writable.update_status, writable.create)

  pub reconcile_team-done :
      (req : ObjectKey) (cr : OpsgenieTeam) (w : W)
      → (r.client.get req w).0 ≡ done cr
      → (reconcile r req w).0 ≡ ok five_minutes
  unfolding reconcile sync
  reconcile_team-done req cr w h = grind (arith, sync_existing-done, create_missing-done)
