-- ===== src/Schedule/DayLaws.antt =====
-- Which days and restrictions are accepted, and what they become.
use opsgenie_operator.Prelude.{
  ℤ, pos, to_uint32, ◌≡◌, ◌≢◌, ◌↔◌, refl, List, string_eq, int_eq, Pointwise, arith,
}
use opsgenie_operator.Exec.{Outcome, ok, err, panicked}
use opsgenie_operator.Exec.Fallible.{traverse_iff}
use opsgenie_operator.Api.Schedule.{OpsgenieTimeInterval, OpsgenieTimeRestriction}
use opsgenie_operator.Opsgenie.Og.{
  Day, monday, tuesday, wednesday, thursday, friday, saturday, sunday, Restriction, TimeRestriction,
}
use opsgenie_operator.Schedule.Days.{
  interval_of, map_day_int_to_string, convert_interval, convert_intervals,
  convert_time_restrictions,
}

-- ISO 8601 numbers of the days: Monday is 1, Sunday is 7.
abbrev pub iso_number : Day → ℤ
iso_number monday = pos 1
iso_number tuesday = pos 2
iso_number wednesday = pos 3
iso_number thursday = pos 4
iso_number friday = pos 5
iso_number saturday = pos 6
iso_number sunday = pos 7

-- A number is accepted exactly if it is the ISO 8601 number of a day, and becomes that day.
pub map_day_int_to_string-eq-ok :
    (n : ℤ) (d : Day) → (map_day_int_to_string n ≡ ok d) ↔ (n ≡ iso_number d)
unfolding map_day_int_to_string
map_day_int_to_string-eq-ok n monday = ground arith
map_day_int_to_string-eq-ok n tuesday = ground arith
map_day_int_to_string-eq-ok n wednesday = ground arith
map_day_int_to_string-eq-ok n thursday = ground arith
map_day_int_to_string-eq-ok n friday = ground arith
map_day_int_to_string-eq-ok n saturday = ground arith
map_day_int_to_string-eq-ok n sunday = ground arith

-- What a converted interval says: the days by their ISO 8601 numbers, the hours as `uint32`, and
-- no minutes.
pub record IntervalConverts (i : OpsgenieTimeInterval) (s : Restriction) : Type 0 where
  pub start_named : i.start_day ≡ iso_number s.start_day
  pub end_named : i.end_day ≡ iso_number s.end_day
  pub start_kept : s.start_hour ≡ to_uint32 i.start_hour
  pub end_kept : s.end_hour ≡ to_uint32 i.end_hour
  pub start_sharp : s.start_min ≡ 0
  pub end_sharp : s.end_min ≡ 0

interval_sound :
    (i : OpsgenieTimeInterval) (s : Restriction) (a b : Outcome Day)
    → map_day_int_to_string i.start_day ≡ a
    → map_day_int_to_string i.end_day ≡ b
    → interval_of i a b ≡ ok s
    → IntervalConverts i s
interval_sound i s (ok a) (ok b) ea eb h =
    let here = (map_day_int_to_string-eq-ok i.start_day a).0 ea in
    let there = (map_day_int_to_string-eq-ok i.end_day b).0 eb in ground arith
interval_sound i s (ok a) (err x) ea eb h = cc
interval_sound i s (ok a) panicked ea eb h = cc
interval_sound i s (err x) b ea eb h = cc
interval_sound i s panicked b ea eb h = cc

convert_interval-eq-ok :
    (i : OpsgenieTimeInterval) (s : Restriction)
    → (convert_interval i ≡ ok s) ↔ IntervalConverts i s
unfolding convert_interval
convert_interval-eq-ok i s = (
  λ h.
      interval_sound i s (map_day_int_to_string i.start_day) (map_day_int_to_string i.end_day) refl
        refl h,
  λ c.
      rw
        (
          (map_day_int_to_string-eq-ok i.start_day s.start_day).1 c.start_named,
          (map_day_int_to_string-eq-ok i.end_day s.end_day).1 c.end_named,
        )
        (ground arith),
)

convert_intervals-eq-ok :
    (intervals : List OpsgenieTimeInterval) (restrictions : List Restriction)
    → (convert_intervals intervals ≡ ok restrictions)
      ↔ Pointwise IntervalConverts intervals restrictions
unfolding convert_intervals
convert_intervals-eq-ok = traverse_iff convert_interval convert_interval-eq-ok

-- A time restriction is accepted exactly if its type is not empty and the days of its intervals
-- are ISO 8601 numbers; the result has the type and the converted intervals, in order.
pub convert_time_restrictions-eq-ok :
    (r : OpsgenieTimeRestriction) (t : TimeRestriction)
    → (convert_time_restrictions r ≡ ok t) ↔ (
        (r.type ≢ "")
        × (t.type ≡ r.type)
        × Pointwise IntervalConverts r.intervals t.restriction_list)
unfolding convert_time_restrictions
convert_time_restrictions-eq-ok r t =
    let (sound, complete) = convert_intervals-eq-ok r.intervals t.restriction_list in
    (λ h. ground (arith, sound), λ h. ground (arith, complete h.2))
