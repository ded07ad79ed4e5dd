-- ===== src/Schedule/Tests.antt =====
-- Runs of the schedule controller, and the theorems at concrete data.
use text.Mathlib.TextEquality.{eq_iff}
use opsgenie_operator.Prelude.{
  true, ◌≡◌, ◌≢◌, ◌↔◌, refl, [], ◌∷◌, none, some, pos, All, Pointwise, string_eq, nat_eq, int_eq,
  arith,
}
use opsgenie_operator.Exec.{ok, err, panicked, invalid_day, invalid_start_date, no_requeue}
use opsgenie_operator.Exec.Fallible.{traverse}
use opsgenie_operator.Exec.Trace.{first}
use opsgenie_operator.Api.Schedule.{OpsgenieSchedule, OpsgenieParticipant}
use opsgenie_operator.Opsgenie.Og.{Participant, Rotation}
use opsgenie_operator.Schedule.Days.{map_day_int_to_string, convert_time_restrictions}
use opsgenie_operator.Schedule.DayLaws.{IntervalConverts, convert_time_restrictions-eq-ok}
use opsgenie_operator.Schedule.Participants.{convert_participant}
use opsgenie_operator.Schedule.ParticipantLaws.{IsAnonymous, convert_participant-IsAnonymous}
use opsgenie_operator.Schedule.Rotations.{convert_rotations, convert_rotation}
use opsgenie_operator.Schedule.RotationLaws.{RotationConverts, convert_rotations-eq-ok}
use opsgenie_operator.Schedule.Compare.{are_rotations_same, is_update_required}
use opsgenie_operator.Schedule.CompareLaws.{
  SameShift, Agrees, HasStart, are_rotations_same-eq-true, is_update_required_blind,
}
use opsgenie_operator.Schedule.Reconcile.{reconcile, create_request, activate}
use opsgenie_operator.Schedule.Trace.{
  created, status_written, traced, IsNoCreate, IsNoUpdate, IsOk, IsCreatedAndRecorded, wanted,
  reconcile_schedule-writes, reconcile_schedule_recorded,
}
use opsgenie_operator.Schedule.Panics.{reconcile_schedule_defined}
use opsgenie_operator.Prelude.{negsuc, to_uint32}
use opsgenie_operator.Schedule.Bounds.{RotationFits, convert_rotations-fit}
use opsgenie_operator.Kube.{key_eq}
use opsgenie_operator.Exec.{one_hour, five_minutes}
use opsgenie_operator.Schedule.Memory.{World, memory, memory-IsLawful}
use opsgenie_operator.Schedule.Settled.{IsExpressible}
use opsgenie_operator.Schedule.Convergence.{reconcile_schedule_twice}
use opsgenie_operator.Schedule.Fixture.{
  key, office_hours, converted_hours, week, parse_time, converted_week, week_converts, oncall,
  in_opsgenie, fixed,
}

-- Zero is no day.
day_zero : map_day_int_to_string (pos 0) ≡ err (invalid_day (pos 0))
unfolding map_day_int_to_string int_eq
day_zero = ground arith

convert_time_restrictions-eq-ok_example :
    (convert_time_restrictions office_hours ≡ ok converted_hours) ↔ (
      (office_hours.type ≢ "")
      × (converted_hours.type ≡ office_hours.type)
      × Pointwise IntervalConverts office_hours.intervals converted_hours.restriction_list)
convert_time_restrictions-eq-ok_example =
    convert_time_restrictions-eq-ok office_hours converted_hours

-- A participant of type team that is given by a username, and what it is converted to.
abbrev misnamed : OpsgenieParticipant
misnamed = record { type = "team"; id = ""; name = ""; username = "ann@x.org" }

abbrev nobody : Participant
nobody = record { type = "team"; id = ""; name = ""; username = "" }

misnamed_converts : convert_participant misnamed ≡ ok nobody
unfolding convert_participant string_eq
misnamed_converts = refl

convert_participant-IsAnonymous_example :
    IsAnonymous nobody ↔ ((misnamed.type ≢ "user") × (misnamed.id ≡ "") × (misnamed.name ≡ ""))
convert_participant-IsAnonymous_example =
    convert_participant-IsAnonymous misnamed nobody misnamed_converts

convert_rotations-eq-ok_example :
    (convert_rotations parse_time (week ∷ []) ≡ ok (converted_week ∷ []))
    ↔ Pointwise (RotationConverts parse_time) (week ∷ []) (converted_week ∷ [])
convert_rotations-eq-ok_example =
    convert_rotations-eq-ok parse_time (week ∷ []) (converted_week ∷ [])

are_rotations_same-eq-true_example :
    (are_rotations_same in_opsgenie.rotations (converted_week ∷ []) ≡ ok true)
    ↔ Pointwise Agrees in_opsgenie.rotations (converted_week ∷ [])
are_rotations_same-eq-true_example =
    are_rotations_same-eq-true in_opsgenie.rotations (converted_week ∷ [])

dated : All HasStart in_opsgenie.rotations
dated = ground arith

-- The same rotation with nobody on call and no restriction, of a schedule with another owner.
abbrev empty_week : Rotation
empty_week = record converted_week { participants = []; time_restriction = none }

abbrev handed_over : OpsgenieSchedule
handed_over = record oncall { spec = record (oncall.spec) { owner_team = "Frontend" } }

same_shift : SameShift converted_week empty_week
same_shift = record { same_name = refl; same_type = refl; same_start = refl; same_length = refl }

is_update_required_blind_example :
    is_update_required oncall in_opsgenie (converted_week ∷ [])
    ≡ is_update_required handed_over in_opsgenie (empty_week ∷ [])
is_update_required_blind_example =
    is_update_required_blind oncall handed_over in_opsgenie (converted_week ∷ []) (empty_week ∷ [])
      refl refl (same_shift, tt)

abbrev undated : OpsgenieSchedule
undated = record oncall {
  spec = record (oncall.spec) { rotations = record week { start_date = "Monday" } ∷ [] };
}

undated_refused :
    convert_rotations parse_time undated.spec.rotations ≡ err (invalid_start_date "Monday")
unfolding convert_rotations convert_rotation string_eq traverse
undated_refused = refl

reconcile_schedule-writes_example :
    let log = (reconcile (traced (fixed oncall)) key (tt, [])).1.1 in
    (oncall.status.schedule_id ≢ "" → All IsNoCreate log)
    × (oncall.status.schedule_id ≡ ""
        → (first log ≡ some (created (wanted oncall (converted_week ∷ [])))) × All IsNoUpdate log)
reconcile_schedule-writes_example =
    reconcile_schedule-writes (fixed oncall) key oncall tt (converted_week ∷ []) refl week_converts

-- The creation is refused, and the schedule that is there under the name is taken over.
import_run : reconcile (traced (fixed oncall)) key (tt, []) ≡ (
  ok no_requeue,
  (
    tt,
    created (create_request oncall (converted_week ∷ []))
        ∷ status_written (activate oncall "D1" (pos 7))
        ∷ [],
  ),
)
unfolding reconcile string_eq
import_run = rw week_converts refl

import_IsOk : IsOk (reconcile (traced (fixed oncall)) key (tt, [])).0
import_IsOk = rw import_run tt

reconcile_schedule_recorded_example :
    IsCreatedAndRecorded (reconcile (traced (fixed oncall)) key (tt, [])).1.1
reconcile_schedule_recorded_example =
    reconcile_schedule_recorded (fixed oncall) (λ q v. ground (arith, eq_iff "D1" "")) (λ q v. tt)
      key oncall tt refl refl import_IsOk

reconcile_schedule_defined_example : (reconcile (fixed oncall) key tt).0 ≢ panicked
reconcile_schedule_defined_example = reconcile_schedule_defined (fixed oncall) (λ q v. dated) key tt

abbrev described : OpsgenieSchedule
described = record oncall { spec = record (oncall.spec) { description = "who is on call" } }

abbrev before : World
before = record { resource = described; schedule = none }

abbrev after : World
after = record {
  resource = activate described "D1" (pos 7);
  schedule = some (record {
    id = "D1";
    description = "who is on call";
    timezone = "UTC";
    rotations = converted_week ∷ [];
  });
}

first_run : reconcile (memory parse_time) key before ≡ (ok one_hour, after)
unfolding reconcile string_eq key_eq nat_eq
first_run = rw week_converts refl

described-IsExpressible : IsExpressible parse_time described
unfolding string_eq to_uint32
described-IsExpressible = record {
  described = ground (arith, eq_iff "who is on call" "");
  zoned = ground (arith, eq_iff "UTC" "");
  staffed = λ e. cc;
  exact = (
    record {
      named = ground (arith, eq_iff "week" "");
      typed = ground (arith, eq_iff "weekly" "");
      start = pos 1736121600000000000;
      started = refl;
      half_hourly = (964512, refl);
      lasting = λ e. ground arith;
    },
    tt,
  );
}

reconcile_schedule_twice_example :
    reconcile (memory parse_time) key after ≡ (ok five_minutes, after)
unfolding key_eq string_eq
reconcile_schedule_twice_example =
    reconcile_schedule_twice (memory parse_time) (memory-IsLawful parse_time) described before
      {w' = after} {res = one_hour} described-IsExpressible refl (λ e. ground arith) first_run

-- A shift from 9 to 17 in a weekly rotation of length 1: the numbers arrive as they are.
convert_rotations-fit_example : Pointwise RotationFits (week ∷ []) (converted_week ∷ [])
convert_rotations-fit_example =
    convert_rotations-fit parse_time (week ∷ []) (converted_week ∷ []) week_converts

-- A length of -1 arrives as 2^32 - 1.
negative_length : to_uint32 (negsuc 0) ≡ 4294967295
unfolding to_uint32
negative_length = refl
