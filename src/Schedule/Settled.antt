-- ===== src/Schedule/Settled.antt =====
-- The states in which a reconciliation of a schedule has nothing to do.
use opsgenie_operator.Prelude.{
  String, true, false, ◌≡◌, ◌≢◌, refl, sym, ◌∙◌, List, [], ◌∷◌, map, Option, some, ◌!=◌, string_eq,
  arith, All, Pointwise, to_uint32,
}
use opsgenie_operator.Exec.{done, ok, five_minutes}
use opsgenie_operator.Kube.{Time}
use opsgenie_operator.Api.Schedule.{OpsgenieSchedule, OpsgenieRotation}
use opsgenie_operator.Opsgenie.Og.{Rotation}
use opsgenie_operator.Opsgenie.Schedule.{Schedule}
use opsgenie_operator.Schedule.Rotations.{convert_rotations}
use opsgenie_operator.Schedule.RotationLaws.{RotationConverts}
use opsgenie_operator.Schedule.Compare.{is_update_required, are_rotations_same}
use opsgenie_operator.Schedule.CompareLaws.{Agrees, are_rotations_same-eq-true}
use opsgenie_operator.Schedule.Reconcile.{
  OpsgenieScheduleReconciler, reconcile, update_schedule, create_request, update_request, activate,
  stamp,
}
use opsgenie_operator.Schedule.Lawful.{
  IsLawful, IsAnswer, IsHalfHour, resource_at, schedule_at, patch, made, sent_rotations,
}

module _ (parse_time : String → Option Time) where
  -- A rotation with nothing in it that is left for Opsgenie to choose or that is moved.
  pub record IsExact (r : OpsgenieRotation) : Type 0 where
    pub named : r.name ≢ ""
    pub typed : r.type ≢ ""
    pub start : Time
    pub started : parse_time r.start_date ≡ some start
    pub half_hourly : IsHalfHour start
    pub lasting : to_uint32 r.length ≢ 0

  -- A resource whose fields can all be sent by an update, which does not send empty ones, and whose
  -- rotations are answered as they are sent.
  pub record IsExpressible (cr : OpsgenieSchedule) : Type 0 where
    pub described : cr.spec.description ≢ ""
    pub zoned : cr.spec.time_zone ≢ ""
    pub staffed : cr.spec.rotations ≢ []
    pub exact : All IsExact cr.spec.rotations

  module _ (answered : Rotation → Rotation) (a : IsAnswer answered) where
    answered-Agrees :
        (r : OpsgenieRotation) (q : Rotation)
        → IsExact r
        → RotationConverts parse_time r q
        → Agrees (answered q) q
    answered-Agrees r q x c =
        let dated : q.start_date ≡ some x.start = c.start_parsed ∙ x.started in
        let kept = a.start_kept q x.start dated x.half_hourly in
        (
          record {
            same_name = a.name_kept q (rw c.name_kept x.named);
            same_type = a.type_kept q (rw c.type_kept x.typed);
            same_start = kept ∙ sym dated;
            same_length = a.length_kept q (rw c.length_cut x.lasting);
          },
          λ missing. cc,
        )

    each-Agrees :
        (rs : List OpsgenieRotation) (qs : List Rotation)
        → All IsExact rs
        → Pointwise (RotationConverts parse_time) rs qs
        → Pointwise Agrees (map answered qs) qs
    each-Agrees [] [] x p = tt
    each-Agrees [] (q ∷ qs) x p = absurd p
    each-Agrees (r ∷ rs) [] x p = absurd p
    each-Agrees (r ∷ rs) (q ∷ qs) (x, xs) (c, p) = (answered-Agrees r q x c, each-Agrees rs qs xs p)

    -- What Opsgenie answers for the rotations that are sent is found the same.
    rotations_recognised :
        (rs : List OpsgenieRotation) (qs : List Rotation)
        → All IsExact rs
        → Pointwise (RotationConverts parse_time) rs qs
        → are_rotations_same (map answered qs) qs ≡ ok true
    rotations_recognised rs qs x p =
        (are_rotations_same-eq-true (map answered qs) qs).1 (each-Agrees rs qs x p)

    sent_rotations_all :
        (rs : List OpsgenieRotation) (new old : List Rotation)
        → rs ≢ []
        → Pointwise (RotationConverts parse_time) rs new
        → sent_rotations (map answered new) old ≡ map answered new
    sent_rotations_all [] new old h p = absurd (h refl)
    sent_rotations_all (r ∷ rs) [] old h p = absurd p
    sent_rotations_all (r ∷ rs) (x ∷ new) old h p = refl

    pub made_current :
        (cr : OpsgenieSchedule) (id zone : String) (t : Time) (rotations : List Rotation)
        → IsExpressible cr
        → Pointwise (RotationConverts parse_time) cr.spec.rotations rotations
        → is_update_required
            (activate cr id t)
            (made answered zone (create_request cr rotations) id)
            rotations
          ≡ ok false
    unfolding is_update_required
    made_current cr id zone t rotations x p =
        rw (rotations_recognised cr.spec.rotations rotations x.exact p) (ground (arith, x.zoned))

    pub patched_current :
        (cr : OpsgenieSchedule) (s : Schedule) (t : Time) (rotations : List Rotation)
        → IsExpressible cr
        → Pointwise (RotationConverts parse_time) cr.spec.rotations rotations
        → is_update_required (stamp cr t) (patch answered (update_request cr rotations) s) rotations
          ≡ ok false
    unfolding is_update_required
    patched_current cr s t rotations x p =
        rw
          (
            sent_rotations_all cr.spec.rotations rotations s.rotations x.staffed p,
            rotations_recognised cr.spec.rotations rotations x.exact p,
          )
          (ground (arith, x.described, x.zoned))

module _ {W : Type 0} (r : OpsgenieScheduleReconciler W) (laws : IsLawful r) where
  open r use {client, opsgenie_client, now, parse_time}

  pub record IsSettled (cr : OpsgenieSchedule) (rotations : List Rotation) (s : Schedule) (w : W)
      : Type 0 where
    pub stored : resource_at r cr.metadata w ≡ done cr
    pub converted : convert_rotations parse_time cr.spec.rotations ≡ ok rotations
    pub known : cr.status.schedule_id ≢ ""
    pub found : schedule_at r cr.status.schedule_id w ≡ done s
    pub current : is_update_required cr s rotations ≡ ok false

  pub reconcile_settled :
      (cr : OpsgenieSchedule) (rotations : List Rotation) (s : Schedule) (w : W)
      → IsSettled cr rotations s w
      → reconcile r cr.metadata w ≡ (ok five_minutes, w)
  unfolding reconcile update_schedule
  reconcile_settled cr rotations s w h =
      let known : (cr.status.schedule_id != "") ≡ true = ground (arith, h.known) in
      rw
        (
          h.stored,
          laws.get_quiet cr.metadata w,
          h.converted,
          known,
          h.found,
          laws.get_schedule_quiet cr.status.schedule_id w,
          h.current,
        )
        refl
