-- ===== src/Schedule/Panics.antt =====
-- When the schedule controller panics: where a rotation has no start date.
use opsgenie_operator.Prelude.{
  String, Bool, true, not, ◌||◌, ◌≡◌, ◌≢◌, refl, inl, inr, List, Option, [], ◌∷◌, All, ◌!=◌,
  string_eq, if◌then◌else◌, arith, Bool-cases, Pointwise,
}
use opsgenie_operator.Exec.{
  Reply, done, failed, Outcome, ok, err, panicked, pure, of_reply, continue, lift, ◌>>=◌,
  five_minutes,
}
use opsgenie_operator.Kube.{ObjectKey}
use opsgenie_operator.Api.Schedule.{OpsgenieSchedule, OpsgenieRotation}
use opsgenie_operator.Opsgenie.Og.{Rotation}
use opsgenie_operator.Opsgenie.Schedule.{Schedule}
use opsgenie_operator.Schedule.Rotations.{convert_rotations}
use opsgenie_operator.Schedule.RotationLaws.{
  RotationConverts, convert_rotations-eq-ok, convert_rotations_defined,
}
use opsgenie_operator.Schedule.Compare.{is_update_required}
use opsgenie_operator.Schedule.CompareLaws.{HasStart, are_rotations_same_defined}
use opsgenie_operator.Schedule.Reconcile.{
  OpsgenieScheduleReconciler, reconcile, after_fetch, update_schedule, create_schedule, send_update,
  by_id,
}

-- Every rotation that Opsgenie answers has a start date.
abbrev pub IsDated : Reply Schedule → Type 0
IsDated (done s) = All HasStart s.rotations
IsDated (failed e) = Unit

pub converted-HasStart :
    (parse_time : String → Option _) (rs : List OpsgenieRotation) (qs : List Rotation)
    → Pointwise (RotationConverts parse_time) rs qs
    → All HasStart qs
converted-HasStart parse_time [] [] p = tt
converted-HasStart parse_time [] (q ∷ qs) p = absurd p
converted-HasStart parse_time (r ∷ rs) [] p = absurd p
converted-HasStart parse_time (r ∷ rs) (q ∷ qs) p = (
  λ e. p.0.start_valid (ground (arith, p.0.start_parsed)),
  converted-HasStart parse_time rs qs p.1,
)

module _ {W : Type 0} (r : OpsgenieScheduleReconciler W) where
  send_update_defined :
      (cr : OpsgenieSchedule) (rotations : List Rotation) (b : Bool) (w : W)
      → ((if b then send_update r cr rotations else pure five_minutes) w).0 ≢ panicked
  unfolding send_update
  send_update_defined cr rotations b w = ground arith

  pub is_update_required_defined :
      (cr : OpsgenieSchedule) (existing : Schedule) (rotations : List Rotation)
      → All HasStart existing.rotations
      → All HasStart rotations
      → (b : Bool) × (is_update_required cr existing rotations ≡ ok b)
  unfolding is_update_required
  is_update_required_defined cr existing rotations he hr =
      let (b, e) = are_rotations_same_defined existing.rotations rotations he hr in
      elim (Bool-cases
        (cr.spec.description != existing.description || cr.spec.time_zone != existing.timezone)) [
          | inl differ ↦ (true, rw differ)
          | inr agree ↦ (not b, rw (agree, e))
        ]

  update_schedule_defined :
      ((q : _) (v : W) → IsDated (r.opsgenie_client.get q v).0)
      → (cr : OpsgenieSchedule) (rotations : List Rotation) (w : W) → All HasStart rotations
      → (update_schedule r cr rotations w).0 ≢ panicked
  unfolding update_schedule
  update_schedule_defined complete cr rotations w dated =
      go (r.opsgenie_client.get (by_id cr.status.schedule_id) w).0 (complete _ w) _
    where
      go :
          (found : Reply Schedule)
          → IsDated found
          → (v : W)
          → (continue
              (of_reply found)
              (λ existing. lift (is_update_required cr existing rotations) >>= λ required.
                if required then send_update r cr rotations else pure five_minutes)
              v).0
            ≢ panicked
      go (failed e) c v = λ x. cc
      go (done s) c v =
          let (b, e) = is_update_required_defined cr s rotations c dated in
          rw e (send_update_defined cr rotations b v)

  create_schedule_defined :
      (cr : OpsgenieSchedule) (rotations : List Rotation) (w : W)
      → (create_schedule r cr rotations w).0 ≢ panicked
  unfolding create_schedule
  create_schedule_defined cr rotations w = ground arith

  after_convert_defined :
      ((q : _) (v : W) → IsDated (r.opsgenie_client.get q v).0)
      → (cr : OpsgenieSchedule) (o : Outcome (List Rotation)) (w : W)
      → convert_rotations r.parse_time cr.spec.rotations ≡ o
      → ((lift o >>= λ rotations.
            if cr.status.schedule_id != ""
            then update_schedule r cr rotations
            else create_schedule r cr rotations)
          w).0
        ≢ panicked
  after_convert_defined complete cr (ok rotations) w e =
      let dated =
        converted-HasStart r.parse_time cr.spec.rotations rotations
          ((convert_rotations-eq-ok r.parse_time cr.spec.rotations rotations).0 e) in
      elim (Bool-cases (cr.status.schedule_id != "")) [
        | inl known ↦ rw known (update_schedule_defined complete cr rotations w dated)
        | inr new ↦ rw new (create_schedule_defined cr rotations w)
      ]
  after_convert_defined complete cr (err x) w e = λ h. cc
  after_convert_defined complete cr panicked w e =
      absurd (convert_rotations_defined r.parse_time cr.spec.rotations e)

  after_fetch_defined :
      ((q : _) (v : W) → IsDated (r.opsgenie_client.get q v).0)
      → (found : Reply OpsgenieSchedule) (w : W) → (after_fetch r found w).0 ≢ panicked
  unfolding after_fetch
  after_fetch_defined complete (failed e) w = ground arith
  after_fetch_defined complete (done cr) w = after_convert_defined complete cr _ w refl

  -- If every rotation that Opsgenie answers has a start date, then a reconciliation never panics:
  -- the rotations that the resource converts to all have one.
  pub reconcile_schedule_defined :
      ((q : _) (v : W) → IsDated (r.opsgenie_client.get q v).0)
      → (req : ObjectKey) (w : W) → (reconcile r req w).0 ≢ panicked
  unfolding reconcile
  reconcile_schedule_defined complete req w = after_fetch_defined complete _ _
