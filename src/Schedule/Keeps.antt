-- ===== src/Schedule/Keeps.antt =====
-- A reconciliation of a schedule writes no status without an id.
use opsgenie_operator.Prelude.{◌≢◌, string_eq, arith, List}
use opsgenie_operator.Exec.Keeps.{Keeps, Answers, IfDone}
use opsgenie_operator.Kube.{ObjectKey}
use opsgenie_operator.Kube.Keeps.{KubeKeeps}
use opsgenie_operator.Api.Schedule.{OpsgenieSchedule}
use opsgenie_operator.Opsgenie.Og.{Rotation}
use opsgenie_operator.Opsgenie.Schedule as Sdk
use opsgenie_operator.Opsgenie.Schedule.{
  GetRequest, CreateRequest, CreateResult, UpdateRequest, Schedule,
}
use opsgenie_operator.Schedule.Reconcile.{
  OpsgenieScheduleReconciler, reconcile, create_schedule, update_schedule,
}

abbrev pub HasId : OpsgenieSchedule → Type 0
HasId cr = cr.status.schedule_id ≢ ""

abbrev pub HasNewId : CreateResult → Type 0
HasNewId a = a.id ≢ ""

abbrev pub HasOwnId : Schedule → Type 0
HasOwnId s = s.id ≢ ""

-- The calls of Opsgenie's schedule API keep the invariant, and a schedule that is created or found
-- has an id.
pub record SdkKeeps {W : Type 0} (I : W → Type 0) (sdk : Sdk.Client W) : Type 0 where
  pub get : (q : GetRequest) → Keeps I (sdk.get q)
  pub get_answer : (q : GetRequest) → Answers (IfDone HasOwnId) (sdk.get q)
  pub create : (q : CreateRequest) → Keeps I (sdk.create q)
  pub create_answer : (q : CreateRequest) → Answers (IfDone HasNewId) (sdk.create q)
  pub update : (q : UpdateRequest) → Keeps I (sdk.update q)

module _ {W : Type 0} (I : W → Type 0) (r : OpsgenieScheduleReconciler W)
    (kube : KubeKeeps I HasId r.client) (sdk : SdkKeeps I r.opsgenie_client)
    (clock : Keeps I r.now) where
  create_schedule-Keeps :
      (cr : OpsgenieSchedule) (rotations : List Rotation) → Keeps I (create_schedule r cr rotations)
  unfolding create_schedule
  create_schedule-Keeps cr rotations w i =
      grind
        (arith, clock, kube.update_status, sdk.create, sdk.create_answer, sdk.get, sdk.get_answer)

  update_schedule-Keeps :
      (cr : OpsgenieSchedule) (rotations : List Rotation)
      → HasId cr
      → Keeps I (update_schedule r cr rotations)
  unfolding update_schedule
  update_schedule-Keeps cr rotations known w i =
      grind (arith, clock, kube.update_status, sdk.update, sdk.get)

  -- Let `I` be kept by every call that a reconciliation of a schedule makes, by a status update only
  -- if the status that is written has an id. Then every reconciliation keeps `I`.
  pub reconcile_schedule-Keeps : (req : ObjectKey) → Keeps I (reconcile r req)
  unfolding reconcile
  reconcile_schedule-Keeps req w i =
      grind (arith, kube.get, create_schedule-Keeps, update_schedule-Keeps)
