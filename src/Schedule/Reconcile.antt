-- ===== src/Schedule/Reconcile.antt =====
-- `OpsgenieScheduleReconciler`, `createSchedule`, `updateSchedule` and `Reconcile`.
use opsgenie_operator.Prelude.{
  String, Bool, ◌&&◌, List, Option, ◌!=◌, string_eq, if◌then◌else◌, contains,
}
use opsgenie_operator.Exec.{
  Call, ApiError, Reply, done, failed, remote, Result, five_minutes, one_hour, no_requeue, Proc,
  pure, raise, lift, attempt, call, ◌>>=◌, ◌>>◌, ignore_not_found,
}
use opsgenie_operator.Kube.{Kube, Time, ObjectKey}
use opsgenie_operator.Api.Schedule.{OpsgenieSchedule}
use opsgenie_operator.Opsgenie.Og.{IdentifierType, Rotation}
use opsgenie_operator.Opsgenie.Schedule as Sdk
use opsgenie_operator.Opsgenie.Schedule.{GetRequest, CreateRequest, CreateResult, UpdateRequest}
use opsgenie_operator.Schedule.Rotations.{convert_rotations}
use opsgenie_operator.Schedule.Compare.{is_update_required}

pub record OpsgenieScheduleReconciler (W : Type 0) : Type 0 where
  pub client : Kube W OpsgenieSchedule
  pub opsgenie_client : Sdk.Client W
  pub now : Call W Time
  pub parse_time : String → Option Time

abbrev pub stamp : OpsgenieSchedule → Time → OpsgenieSchedule
stamp cr now = record cr { status = record (cr.status) { last_synced_time = now } }

abbrev pub activate : OpsgenieSchedule → String → Time → OpsgenieSchedule
activate cr id now = record cr {
  status = record { schedule_id = id; status = "Active"; last_synced_time = now };
}

-- `createReq`
abbrev pub create_request : OpsgenieSchedule → List Rotation → CreateRequest
create_request cr rotations = record {
  name = cr.spec.name;
  description = cr.spec.description;
  timezone = cr.spec.time_zone;
  owner_team = record { id = ""; name = cr.spec.owner_team };
  rotations = rotations;
}

-- `updateReq`
abbrev pub update_request : OpsgenieSchedule → List Rotation → UpdateRequest
update_request cr rotations = record {
  identifier_type = IdentifierType.id;
  identifier_value = cr.status.schedule_id;
  name = cr.spec.name;
  description = cr.spec.description;
  timezone = cr.spec.time_zone;
  owner_team = record { id = ""; name = cr.spec.owner_team };
  rotations = rotations;
}

abbrev pub by_id : String → GetRequest
by_id id = record { identifier_type = IdentifierType.id; identifier_value = id }

abbrev pub by_name : String → GetRequest
by_name name = record { identifier_type = IdentifierType.name; identifier_value = name }

-- The test for a 409 conflict.
abbrev pub is_conflict : ApiError → Bool
is_conflict e = contains e.message "409" && contains e.message "already exists"

module _ {W : Type 0} (r : OpsgenieScheduleReconciler W) where
  open r use {client, opsgenie_client, now, parse_time}

  abbrev pub write_status : OpsgenieSchedule → Proc W OpsgenieSchedule
  write_status cr = call (client.update_status cr)

  unfoldable pub record_schedule_id : OpsgenieSchedule → String → Proc W OpsgenieSchedule
  record_schedule_id cr id = do t ← attempt now; write_status (activate cr id t)

  -- The import of a schedule that exists under the name. Its `ctrl.Result` is empty.
  unfoldable pub import_schedule : OpsgenieSchedule → Proc W Result
  unfolding record_schedule_id
  import_schedule cr = do
    existing ← call (opsgenie_client.get (by_name cr.spec.name))
    record_schedule_id cr existing.id
    pure no_requeue

  -- The rest of `createSchedule`, after the call of `Create`.
  unfoldable pub after_create : OpsgenieSchedule → Reply CreateResult → Proc W Result
  unfolding import_schedule record_schedule_id
  after_create cr (failed e) = if is_conflict e then import_schedule cr else raise (remote e)
  after_create cr (done created) = do record_schedule_id cr created.id; pure one_hour

  unfoldable pub create_schedule : OpsgenieSchedule → List Rotation → Proc W Result
  unfolding after_create
  create_schedule cr rotations = do
    reply ← attempt (opsgenie_client.create (create_request cr rotations))
    after_create cr reply

  -- The write of `updateSchedule`, for a schedule that differs.
  unfoldable pub send_update : OpsgenieSchedule → List Rotation → Proc W Result
  send_update cr rotations = do
    call (opsgenie_client.update (update_request cr rotations))
    t ← attempt now
    write_status (stamp cr t)
    pure five_minutes

  unfoldable pub update_schedule : OpsgenieSchedule → List Rotation → Proc W Result
  unfolding send_update
  update_schedule cr rotations = do
    existing ← call (opsgenie_client.get (by_id cr.status.schedule_id))
    required ← lift (is_update_required cr existing rotations)
    if required then send_update cr rotations else pure five_minutes

  unfoldable pub after_fetch : Reply OpsgenieSchedule → Proc W Result
  unfolding create_schedule update_schedule
  after_fetch (failed e) = ignore_not_found e
  after_fetch (done cr) = do
    rotations ← lift (convert_rotations parse_time cr.spec.rotations)
    if cr.status.schedule_id != ""
        then update_schedule cr rotations
        else create_schedule cr rotations

  unfoldable pub reconcile : ObjectKey → Proc W Result
  unfolding after_fetch
  reconcile req = do found ← attempt (client.get req); after_fetch found
