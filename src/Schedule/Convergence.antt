-- ===== src/Schedule/Convergence.antt =====
-- A reconciliation of a schedule that succeeds leaves nothing to do for the next one.
use mathlib.Core.Path.{subst}
use opsgenie_operator.Prelude.{
  ◌≡◌, ◌≢◌, refl, ap, inl, inr, List, ◌!=◌, string_eq, if◌then◌else◌, arith, Bool-cases,
}
use opsgenie_operator.Exec.{
  Reply, done, failed, ApiError, remote, Outcome, ok, err, panicked, lift, ◌>>=◌, Result,
  five_minutes, no_requeue,
}
use opsgenie_operator.Api.Schedule.{OpsgenieSchedule}
use opsgenie_operator.Opsgenie.Og.{Rotation}
use opsgenie_operator.Opsgenie.Schedule.{CreateResult}
use opsgenie_operator.Schedule.Rotations.{convert_rotations}
use opsgenie_operator.Schedule.Reconcile.{
  OpsgenieScheduleReconciler, reconcile, after_create, create_schedule, update_schedule,
  import_schedule, create_request, is_conflict,
}
use opsgenie_operator.Schedule.Lawful.{IsLawful, resource_at}
use opsgenie_operator.Schedule.Settled.{IsExpressible, reconcile_settled}
use opsgenie_operator.Schedule.Steps.{after_create-Reached, update_schedule-Reached, Reached}

module _ {W : Type 0} (r : OpsgenieScheduleReconciler W) (laws : IsLawful r) where
  open r use {client, opsgenie_client, now, parse_time}

  import_schedule-eq-ok :
      (cr : OpsgenieSchedule) (w : W) {w' : W} {res : Result}
      → import_schedule r cr w ≡ (ok res, w')
      → res ≡ no_requeue
  unfolding import_schedule
  import_schedule-eq-ok cr w e = ground arith

  create_schedule-Reached :
      (cr : OpsgenieSchedule) (rotations : List Rotation) (w : W) {w' : W} {res : Result}
      → convert_rotations parse_time cr.spec.rotations ≡ ok rotations
      → IsExpressible parse_time cr
      → res ≢ no_requeue
      → create_schedule r cr rotations w ≡ (ok res, w')
      → Reached r laws cr rotations w'
  unfolding create_schedule after_create
  create_schedule-Reached cr rotations w {w'} {res} converted x again e =
      go (opsgenie_client.create (create_request cr rotations) w).0 refl e
    where
      failed_not_ok :
          {x : ApiError} {v : W} → ◌≡◌ {A = Outcome Result × W} (err (remote x), v) (ok res, w') → ⊥
      failed_not_ok e = cc

      go :
          (reply : Reply CreateResult)
          → (opsgenie_client.create (create_request cr rotations) w).0 ≡ reply
          → after_create r cr reply (opsgenie_client.create (create_request cr rotations) w).1
            ≡ (ok res, w')
          → Reached r laws cr rotations w'
      go (done a) h e =
          let v = (opsgenie_client.create (create_request cr rotations) w).1 in
          let created : opsgenie_client.create (create_request cr rotations) w ≡ (done a, v) =
            ap (λ x. (x, v)) h in
          after_create-Reached r laws cr rotations a v x converted
            (laws.create_id (create_request cr rotations) created)
            (laws.create_stored (create_request cr rotations) created) e
      go (failed y) h e = elim (Bool-cases (is_conflict y)) [
        | inl conflict ↦ absurd (again (import_schedule-eq-ok cr _ (rw conflict at e)))
        | inr other ↦ absurd (failed_not_ok (rw other at e))
      ]

  after_convert-Reached :
      (cr : OpsgenieSchedule) (w : W) (o : Outcome (List Rotation)) {w' : W} {res : Result}
      → IsExpressible parse_time cr
      → resource_at r cr.metadata w ≡ done cr
      → convert_rotations parse_time cr.spec.rotations ≡ o
      → res ≢ no_requeue
      → (lift o >>= λ rotations.
            if cr.status.schedule_id != ""
            then update_schedule r cr rotations
            else create_schedule r cr rotations)
          w
        ≡ (ok res, w')
      → (rotations : List Rotation) × Reached r laws cr rotations w'
  after_convert-Reached cr w (ok rotations) x stored converted again e =
      elim (Bool-cases (cr.status.schedule_id != "")) [
        | inl known ↦ (
          rotations,
          update_schedule-Reached r laws cr rotations w x stored converted (ground arith)
              (rw known at e),
        )
        | inr new ↦
            (rotations, create_schedule-Reached cr rotations w converted x again (rw new at e))
      ]
  after_convert-Reached cr w (err y) x stored converted again e = absurd (ground arith)
  after_convert-Reached cr w panicked x stored converted again e = absurd (ground arith)

  -- In a lawful world, if a reconciliation of a schedule ends without an error and asks to be called
  -- again (as all but an import do), and the schedule has a description, a timezone and rotations,
  -- each of which has a name, a type, a length that is not 0 as a `uint32` and a start at a whole or
  -- half hour, then the next one asks to be called again in five minutes and leaves the world as it
  -- is: it writes neither to Kubernetes nor to Opsgenie.
  pub reconcile_schedule_twice :
      (cr : OpsgenieSchedule) (w : W) {w' : W} {res : Result}
      → IsExpressible parse_time cr
      → resource_at r cr.metadata w ≡ done cr
      → res ≢ no_requeue
      → reconcile r cr.metadata w ≡ (ok res, w')
      → reconcile r cr.metadata w' ≡ (ok five_minutes, w')
  unfolding reconcile
  reconcile_schedule_twice cr w {w'} x stored again e =
      let (rotations, reached) =
        after_convert-Reached cr w (convert_rotations parse_time cr.spec.rotations) x stored refl
          again (rw (stored, laws.get_quiet cr.metadata w) at e) in
      subst (λ k. reconcile r k w' ≡ (ok five_minutes, w')) reached.metadata_kept
        (reconcile_settled r laws reached.resource rotations reached.schedule w' reached.settled)
