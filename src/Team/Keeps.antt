-- ===== src/Team/Keeps.antt =====
-- A reconciliation of a team writes no status without an id.
use opsgenie_operator.Prelude.{◌≢◌, string_eq, arith}
use opsgenie_operator.Exec.Keeps.{Keeps, Answers, IfDone}
use opsgenie_operator.Kube.{ObjectKey}
use opsgenie_operator.Kube.Keeps.{KubeKeeps}
use opsgenie_operator.Api.Team.{OpsgenieTeam}
use opsgenie_operator.Opsgenie.Team as Sdk
use opsgenie_operator.Opsgenie.Team.{
  GetTeamRequest, GetTeamResult, CreateTeamRequest, CreateTeamResult, UpdateTeamRequest,
}
use opsgenie_operator.Team.Reconcile.{
  OpsgenieTeamReconciler, reconcile, sync, sync_existing, create_missing,
}

abbrev pub HasId : OpsgenieTeam → Type 0
HasId cr = cr.status.team_id ≢ ""

abbrev pub HasNewId : CreateTeamResult → Type 0
HasNewId a = a.id ≢ ""

-- The calls of Opsgenie's team API keep the invariant, and a creation answers an id.
pub record SdkKeeps {W : Type 0} (I : W → Type 0) (sdk : Sdk.Client W) : Type 0 where
  pub get : (q : GetTeamRequest) → Keeps I (sdk.get q)
  pub create : (q : CreateTeamRequest) → Keeps I (sdk.create q)
  pub create_answer : (q : CreateTeamRequest) → Answers (IfDone HasNewId) (sdk.create q)
  pub update : (q : UpdateTeamRequest) → Keeps I (sdk.update q)

module _ {W : Type 0} (I : W → Type 0) (r : OpsgenieTeamReconciler W)
    (kube : KubeKeeps I HasId r.client) (sdk : SdkKeeps I r.opsgenie_client)
    (clock : Keeps I r.now) where
  sync_existing-Keeps :
      (cr : OpsgenieTeam) (t : GetTeamResult) → t.id ≢ "" → Keeps I (sync_existing r cr t)
  unfolding sync_existing
  sync_existing-Keeps cr t known w i =
      grind (arith, clock, kube.update_status, kube.update_answer, sdk.update)

  create_missing-Keeps : (cr : OpsgenieTeam) → Keeps I (create_missing r cr)
  unfolding create_missing
  create_missing-Keeps cr w i =
      grind (arith, clock, kube.update_status, sdk.create, sdk.create_answer)

  -- Let `I` be kept by every call that a reconciliation of a team makes, by a status update only
  -- if the status that is written has an id. Then every reconciliation keeps `I`.
  pub reconcile_team-Keeps : (req : ObjectKey) → Keeps I (reconcile r req)
  unfolding reconcile sync
  reconcile_team-Keeps req w i =
      grind (arith, kube.get, sdk.get, sync_existing-Keeps, create_missing-Keeps)
