-- ===== src/Schedule/Steps.antt =====
-- What the writes of a reconciliation of a schedule reach in a lawful world.
use mathlib.Core.Path.{subst}
use opsgenie_operator.Prelude.{
  String, Bool, true, false, ◌≡◌, ◌≢◌, refl, sym, ap, ◌∙◌, List, string_eq, if◌then◌else◌,
}
use opsgenie_operator.Exec.{done, ok, pure, lift, attempt, ◌>>=◌, Result, five_minutes}
use opsgenie_operator.Exec.Laws.{call-eq-ok, call-bind-eq-ok, on_ok}
use opsgenie_operator.Kube.{Time}
use opsgenie_operator.Api.Schedule.{OpsgenieSchedule}
use opsgenie_operator.Opsgenie.Og.{Rotation}
use opsgenie_operator.Opsgenie.Schedule.{Schedule, CreateResult}
use opsgenie_operator.Schedule.Rotations.{convert_rotations}
use opsgenie_operator.Schedule.RotationLaws.{convert_rotations-eq-ok}
use opsgenie_operator.Schedule.Compare.{is_update_required}
use opsgenie_operator.Schedule.Reconcile.{
  OpsgenieScheduleReconciler, after_create, update_schedule, send_update, record_schedule_id,
  create_request, update_request, activate, stamp, write_status, by_id,
}
use opsgenie_operator.Schedule.Lawful.{IsLawful, resource_at, schedule_at, patch, made}
use opsgenie_operator.Schedule.Settled.{IsExpressible, made_current, patched_current, IsSettled}

module _ {W : Type 0} (r : OpsgenieScheduleReconciler W) (laws : IsLawful r) where
  open r use {client, opsgenie_client, now, parse_time}

  -- A status is written with the time: it is stored, and the schedules stay.
  write_stamped :
      (f : Time → OpsgenieSchedule) {c : OpsgenieSchedule} {w w' : W}
      → (attempt now >>= λ t. write_status r (f t)) w ≡ (ok c, w')
      → (t : Time) × (resource_at r (f t).metadata w' ≡ done (f t))
        × ((id : String) → schedule_at r id w' ≡ schedule_at r id w)
  write_stamped f {w = w} e =
      let written = call-eq-ok (client.update_status (f (now w).0)) e in
      (
        (now w).0,
        laws.status_stored (f (now w).0) written,
        λ id. laws.status_schedule (f (now w).0) written id ∙ laws.schedule-now id w,
      )

  pub record Reached (cr : OpsgenieSchedule) (rotations : List Rotation) (w : W) : Type 0 where
    pub resource : OpsgenieSchedule
    pub schedule : Schedule
    pub metadata_kept : resource.metadata ≡ cr.metadata
    pub settled : IsSettled r laws resource rotations schedule w

  pub after_create-Reached :
      (cr : OpsgenieSchedule) (rotations : List Rotation) (a : CreateResult) (v : W) {w' : W}
      {res : Result}
      → IsExpressible parse_time cr
      → convert_rotations parse_time cr.spec.rotations ≡ ok rotations
      → a.id ≢ ""
      → schedule_at r a.id v
        ≡ done (made laws.answered laws.zone (create_request cr rotations) a.id)
      → after_create r cr (done a) v ≡ (ok res, w')
      → Reached cr rotations w'
  unfolding after_create record_schedule_id
  after_create-Reached cr rotations a v x converted known found e =
      on_ok (attempt now >>= λ t. write_status r (activate cr a.id t)) _ e λ c v₂ ran last.
        let (t, stored, kept) = write_stamped (activate cr a.id) ran in
        subst (Reached cr rotations) (ap (λ y. y.1) last) (record {
          resource = activate cr a.id t;
          schedule = made laws.answered laws.zone (create_request cr rotations) a.id;
          metadata_kept = refl;
          settled = record {
            stored = stored;
            converted = converted;
            known = known;
            found = kept a.id ∙ found;
            current =
                made_current parse_time laws.answered laws.answer cr a.id laws.zone t rotations x
                  ((convert_rotations-eq-ok parse_time cr.spec.rotations rotations).0 converted);
          };
        })

  send_update-Reached :
      (cr : OpsgenieSchedule) (rotations : List Rotation) (s : Schedule) (w : W) {w' : W}
      {res : Result}
      → IsExpressible parse_time cr
      → convert_rotations parse_time cr.spec.rotations ≡ ok rotations
      → cr.status.schedule_id ≢ ""
      → schedule_at r cr.status.schedule_id w ≡ done s
      → send_update r cr rotations w ≡ (ok res, w')
      → Reached cr rotations w'
  unfolding send_update
  send_update-Reached cr rotations s w x converted known found e =
      let (u, v, updated, rest) =
        call-bind-eq-ok (opsgenie_client.update (update_request cr rotations)) _ e in
      on_ok (attempt now >>= λ t. write_status r (stamp cr t)) _ rest λ c v₂ ran last.
        let (t, stored, kept) = write_stamped (stamp cr) ran in
        subst (Reached cr rotations) (ap (λ y. y.1) last) (record {
          resource = stamp cr t;
          schedule = patch laws.answered (update_request cr rotations) s;
          metadata_kept = refl;
          settled = record {
            stored = stored;
            converted = converted;
            known = known;
            found =
                kept cr.status.schedule_id
                ∙ laws.update_stored (update_request cr rotations) found updated;
            current =
                patched_current parse_time laws.answered laws.answer cr s t rotations x
                  ((convert_rotations-eq-ok parse_time cr.spec.rotations rotations).0 converted);
          };
        })

  pub update_schedule-Reached :
      (cr : OpsgenieSchedule) (rotations : List Rotation) (w : W) {w' : W} {res : Result}
      → IsExpressible parse_time cr
      → resource_at r cr.metadata w ≡ done cr
      → convert_rotations parse_time cr.spec.rotations ≡ ok rotations
      → cr.status.schedule_id ≢ ""
      → update_schedule r cr rotations w ≡ (ok res, w')
      → Reached cr rotations w'
  unfolding update_schedule
  update_schedule-Reached cr rotations w {w'} {res} x stored converted known e =
      let (s, v, got, rest) =
        call-bind-eq-ok (opsgenie_client.get (by_id cr.status.schedule_id)) _ e in
      let found = ap (λ y. y.0) got in
      let still : w ≡ v =
        sym (laws.get_schedule_quiet cr.status.schedule_id w) ∙ ap (λ y. y.1) got in
      on_ok (lift (is_update_required cr s rotations)) _ (rw (← still) at rest)
        λ b v₂ compared done_after.
          let same : w ≡ v₂ = ap (λ y. y.1) compared in
          go s b found (ap (λ y. y.0) compared) (rw (← same) at done_after)
    where
      go :
          (s : Schedule) (b : Bool)
          → schedule_at r cr.status.schedule_id w ≡ done s
          → is_update_required cr s rotations ≡ ok b
          → (if b then send_update r cr rotations else pure five_minutes) w ≡ (ok res, w')
          → Reached cr rotations w'
      go s true found c e = send_update-Reached cr rotations s w x converted known found e
      go s false found c e = subst (Reached cr rotations) (ap (λ y. y.1) e) (record {
        resource = cr;
        schedule = s;
        metadata_kept = refl;
        settled = record {
          stored = stored;
          converted = converted;
          known = known;
          found = found;
          current = c;
        };
      })
