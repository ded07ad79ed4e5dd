-- ===== src/Schedule/Trace.antt =====
-- Which writes a reconciliation of a schedule makes, and how it ends.
use opsgenie_operator.Prelude.{
  false, ◌≡◌, ◌≢◌, inl, inr, List, some, [], ◌∷◌, All, ◌!=◌, string_eq, arith, Bool-cases,
}
use opsgenie_operator.Exec.{
  Reply, done, failed, Error, Outcome, ok, err, panicked, lift, ◌>>=◌, Result,
}
use opsgenie_operator.Exec.Trace.{Traced, quiet, noted, first}
use opsgenie_operator.Kube.{ObjectKey}
use opsgenie_operator.Api.Schedule.{OpsgenieSchedule}
use opsgenie_operator.Opsgenie.Og.{Rotation}
use opsgenie_operator.Opsgenie.Schedule.{CreateRequest, CreateResult, UpdateRequest, Schedule}
use opsgenie_operator.Schedule.Rotations.{convert_rotations}
use opsgenie_operator.Schedule.Reconcile.{
  OpsgenieScheduleReconciler, reconcile, update_schedule, create_schedule, after_create,
  import_schedule, is_conflict, by_name,
}

pub data Write : Type 0 where
  created : CreateRequest → Write
  updated : UpdateRequest → Write
  status_written : OpsgenieSchedule → Write

abbrev pub IsNoCreate : Write → Type 0
IsNoCreate (created q) = ⊥
IsNoCreate _ = Unit

abbrev pub IsNoUpdate : Write → Type 0
IsNoUpdate (updated q) = ⊥
IsNoUpdate _ = Unit

-- The schedule that a resource asks for, with converted rotations. The owner is given by its name.
abbrev pub wanted : OpsgenieSchedule → List Rotation → CreateRequest
wanted cr rotations = record {
  name = cr.spec.name;
  description = cr.spec.description;
  timezone = cr.spec.time_zone;
  owner_team = record { id = ""; name = cr.spec.owner_team };
  rotations = rotations;
}

-- The same reconciler, over a world that keeps a record of the writes.
abbrev pub traced :
    {W : Type 0} → OpsgenieScheduleReconciler W → OpsgenieScheduleReconciler (Traced W Write)
traced r = record {
  client = record {
    get = λ k. quiet (r.client.get k);
    update_status = λ c. noted (status_written c) (r.client.update_status c);
  };
  opsgenie_client = record {
    get = λ q. quiet (r.opsgenie_client.get q);
    create = λ q. noted (created q) (r.opsgenie_client.create q);
    update = λ q. noted (updated q) (r.opsgenie_client.update q);
  };
  now = quiet r.now;
  parse_time = r.parse_time;
}

module _ {W : Type 0} (r : OpsgenieScheduleReconciler W) where
  -- If a rotation of a schedule is not valid, then the reconciliation returns the error of the
  -- conversion, and its only call is the read of the schedule.
  pub reconcile_schedule_invalid :
      (req : ObjectKey) (cr : OpsgenieSchedule) (w : W) {e : Error}
      → (r.client.get req w).0 ≡ done cr
      → convert_rotations r.parse_time cr.spec.rotations ≡ err e
      → reconcile r req w ≡ (err e, (r.client.get req w).1)
  unfolding reconcile
  reconcile_schedule_invalid req cr w h e = rw (h, e)

  update_schedule-writes :
      (cr : OpsgenieSchedule) (rotations : List Rotation) (w : W)
      → All IsNoCreate (update_schedule (traced r) cr rotations (w, [])).1.1
  unfolding update_schedule
  update_schedule-writes cr rotations w = ground arith

  create_schedule-writes :
      (cr : OpsgenieSchedule) (rotations : List Rotation) (w : W)
      → let log = (create_schedule (traced r) cr rotations (w, [])).1.1 in
        (first log ≡ some (created (wanted cr rotations))) × All IsNoUpdate log
  unfolding create_schedule
  create_schedule-writes cr rotations w = ground arith

  -- Once the rotations of a schedule are converted: if the schedule's status has an id, then no
  -- schedule is created, and otherwise the first write is the creation of a schedule with the
  -- name, the description, the time zone and the name of the owner team of the resource's spec, and
  -- the converted rotations, and none is updated.
  pub reconcile_schedule-writes :
      (req : ObjectKey) (cr : OpsgenieSchedule) (w : W) (rotations : List Rotation)
      → (r.client.get req w).0 ≡ done cr
      → convert_rotations r.parse_time cr.spec.rotations ≡ ok rotations
      → let log = (reconcile (traced r) req (w, [])).1.1 in
        (cr.status.schedule_id ≢ "" → All IsNoCreate log)
        × (cr.status.schedule_id ≡ ""
            → (first log ≡ some (created (wanted cr rotations))) × All IsNoUpdate log)
  unfolding reconcile
  reconcile_schedule-writes req cr w rotations h e =
      elim (Bool-cases (cr.status.schedule_id != "")) [
        | inl known ↦
            rw (h, e, known)
              (λ k. update_schedule-writes cr rotations _, λ k. absurd (ground arith))
        | inr unknown ↦
            rw (h, e, unknown)
              (λ k. absurd (k (ground arith)), λ k. create_schedule-writes cr rotations _)
      ]

-- What Opsgenie answers has an id.
abbrev pub HasNewId : Reply CreateResult → Type 0
HasNewId (done a) = a.id ≢ ""
HasNewId (failed e) = Unit

abbrev pub HasId : Reply Schedule → Type 0
HasId (done s) = s.id ≢ ""
HasId (failed e) = Unit

-- The only writes are a creation and then a status that has an id and is active.
abbrev pub IsCreatedAndRecorded : List Write → Type 0
IsCreatedAndRecorded (created q ∷ (status_written c ∷ [])) =
    (c.status.schedule_id ≢ "") × (c.status.status ≡ "Active")
IsCreatedAndRecorded _ = ⊥

abbrev pub IsOk : Outcome Result → Type 0
IsOk (ok a) = Unit
IsOk _ = ⊥

module _ {W : Type 0} (r : OpsgenieScheduleReconciler W) where
  import_schedule-recorded :
      ((q : _) (v : W) → HasId (r.opsgenie_client.get q v).0)
      → (cr : OpsgenieSchedule) (q : CreateRequest) (w : W)
      → let end = import_schedule (traced r) cr (w, created q ∷ []) in
        IsOk end.0 → IsCreatedAndRecorded end.1.1
  unfolding import_schedule
  import_schedule-recorded complete cr q w = ground (arith, complete (by_name cr.spec.name) w)

  after_create-recorded :
      ((q : _) (v : W) → HasId (r.opsgenie_client.get q v).0)
      → (cr : OpsgenieSchedule) (q : CreateRequest) (reply : Reply CreateResult) (w : W)
      → HasNewId reply
      → let end = after_create (traced r) cr reply (w, created q ∷ []) in
        IsOk end.0 → IsCreatedAndRecorded end.1.1
  unfolding after_create
  after_create-recorded complete cr q (done a) w h = ground arith
  after_create-recorded complete cr q (failed e) w h = elim (Bool-cases (is_conflict e)) [
    | inl conflict ↦ rw conflict (import_schedule-recorded complete cr q w)
    | inr other ↦ rw other (λ x. absurd x)
  ]

  -- If Opsgenie answers a creation and a lookup with ids, then a reconciliation of a schedule whose
  -- status has no id, and that ends without an error, has made two writes: the creation, and then
  -- an active status with an id, be the schedule new or one that was there under the name.
  pub reconcile_schedule_recorded :
      ((q : _) (v : W) → HasId (r.opsgenie_client.get q v).0)
      → ((q : CreateRequest) (v : W) → HasNewId (r.opsgenie_client.create q v).0)
      → (req : ObjectKey) (cr : OpsgenieSchedule) (w : W) → (r.client.get req w).0 ≡ done cr
      → cr.status.schedule_id ≡ ""
      → let end = reconcile (traced r) req (w, []) in IsOk end.0 → IsCreatedAndRecorded end.1.1
  unfolding reconcile create_schedule
  reconcile_schedule_recorded complete ids req cr w h unknown =
      let new : (cr.status.schedule_id != "") ≡ false = ground arith in
      rw (h, new) (go (convert_rotations r.parse_time cr.spec.rotations))
    where
      go :
          (o : Outcome (List Rotation))
          → let end =
              (lift o >>= λ rotations. create_schedule (traced r) cr rotations)
                ((r.client.get req w).1, []) in
            IsOk end.0 → IsCreatedAndRecorded end.1.1
      go (ok rotations) = after_create-recorded complete cr _ _ _ (ids _ _)
      go (err e) = λ x. absurd x
      go panicked = λ x. absurd x
