-- ===== src/Schedule/Days.antt =====
-- `mapDayIntToString` and `convertTimeRestrictions`.
use opsgenie_operator.Prelude.{
  ℤ, pos, to_uint32, List, [], ◌∷◌, Option, none, some, ◌==◌, string_eq, int_eq, if◌then◌else◌,
}
use opsgenie_operator.Exec.{Outcome, ok, err, invalid_day, restriction_type_empty}
use opsgenie_operator.Exec.Fallible.{◌>>=◌, traverse}
use opsgenie_operator.Api.Schedule.{OpsgenieTimeInterval, OpsgenieTimeRestriction}
use opsgenie_operator.Opsgenie.Og.{
  Day, monday, tuesday, wednesday, thursday, friday, saturday, sunday, Restriction, TimeRestriction,
}

-- The map `days`.
abbrev pub days : List (ℤ × Day)
days =
    (pos 1, monday)
    ∷ (pos 2, tuesday)
    ∷ (pos 3, wednesday)
    ∷ (pos 4, thursday)
    ∷ (pos 5, friday)
    ∷ (pos 6, saturday)
    ∷ (pos 7, sunday)
    ∷ []

abbrev pub find_day : ℤ → List (ℤ × Day) → Option Day
find_day day [] = none
find_day day ((k, d) ∷ m) = if k == day then some d else find_day day m

abbrev of_day : ℤ → Option Day → Outcome Day
of_day day none = err (invalid_day day)
of_day day (some d) = ok d

unfoldable pub map_day_int_to_string : ℤ → Outcome Day
map_day_int_to_string day = of_day day (find_day day days)

-- The body of the loop over the intervals, behind the two lookups of days.
abbrev pub interval_of : OpsgenieTimeInterval → Outcome Day → Outcome Day → Outcome Restriction
interval_of i start end = do
  start_day ← start
  end_day ← end
  ok (record {
    start_day = start_day;
    end_day = end_day;
    start_hour = to_uint32 i.start_hour;
    start_min = 0;
    end_hour = to_uint32 i.end_hour;
    end_min = 0;
  })

unfoldable pub convert_interval : OpsgenieTimeInterval → Outcome Restriction
convert_interval i =
    interval_of i (map_day_int_to_string i.start_day) (map_day_int_to_string i.end_day)

unfoldable pub convert_intervals : List OpsgenieTimeInterval → Outcome (List Restriction)
convert_intervals = traverse convert_interval

unfoldable pub convert_time_restrictions : OpsgenieTimeRestriction → Outcome TimeRestriction
convert_time_restrictions r = if r.type == "" then err restriction_type_empty else (do
  restrictions ← convert_intervals r.intervals
  ok (record { type = r.type; restriction_list = restrictions }))
