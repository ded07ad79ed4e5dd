-- ===== src/Schedule/Bounds.antt =====
-- The numbers that a schedule sends to Opsgenie: `uint32(rotation.Length)`, `uint32(interval.StartHour)`
-- and `uint32(interval.EndHour)`.
use opsgenie_operator.Prelude.{
  String, WrapsTo, to_uint32-WrapsTo, ◌≡◌, List, Option, none, some, Pointwise, Pointwise-mono,
}
use opsgenie_operator.Exec.{ok}
use opsgenie_operator.Kube.{Time}
use opsgenie_operator.Api.Schedule.{OpsgenieTimeInterval, OpsgenieRotation, OpsgenieTimeRestriction}
use opsgenie_operator.Opsgenie.Og.{Restriction, Rotation, TimeRestriction}
use opsgenie_operator.Schedule.DayLaws.{IntervalConverts}
use opsgenie_operator.Schedule.Rotations.{convert_rotations}
use opsgenie_operator.Schedule.RotationLaws.{RestrictionConverts, convert_rotations-eq-ok}

abbrev pub HoursFit : OpsgenieTimeInterval → Restriction → Type 0
HoursFit i s =
    WrapsTo i.start_hour s.start_hour
    × WrapsTo i.end_hour s.end_hour
    × (s.start_min ≡ 0)
    × (s.end_min ≡ 0)

abbrev pub RestrictionFits : Option OpsgenieTimeRestriction → Option TimeRestriction → Type 0
RestrictionFits none none = Unit
RestrictionFits (some r) (some t) = Pointwise HoursFit r.intervals t.restriction_list
RestrictionFits _ _ = ⊥

abbrev pub RotationFits : OpsgenieRotation → Rotation → Type 0
RotationFits r q = WrapsTo r.length q.length × RestrictionFits r.time_restriction q.time_restriction

hours_fit : (i : OpsgenieTimeInterval) (s : Restriction) → IntervalConverts i s → HoursFit i s
hours_fit i s c = (
  rw c.start_kept (to_uint32-WrapsTo i.start_hour),
  rw c.end_kept (to_uint32-WrapsTo i.end_hour),
  c.start_sharp,
  c.end_sharp,
)

restriction_fits :
    (r : Option OpsgenieTimeRestriction) (t : Option TimeRestriction)
    → RestrictionConverts r t
    → RestrictionFits r t
restriction_fits none none h = tt
restriction_fits none (some t) h = absurd h
restriction_fits (some r) none h = absurd h
restriction_fits (some r) (some t) (typed, kept, intervals) =
    Pointwise-mono hours_fit r.intervals t.restriction_list intervals

module _ (parse_time : String → Option Time) where
  -- Each number of the rotations that are sent fits in 32 bits. A length or an hour of the resource
  -- arrives unchanged exactly if it lies between 0 and 2^32 - 1; one between -2^32 and -1 arrives as
  -- what it lacks to 2^32. Minutes are 0.
  pub convert_rotations-fit :
      (rs : List OpsgenieRotation) (qs : List Rotation)
      → convert_rotations parse_time rs ≡ ok qs
      → Pointwise RotationFits rs qs
  convert_rotations-fit rs qs e =
      Pointwise-mono
        (λ r q c. (
          rw c.length_cut (to_uint32-WrapsTo r.length),
          restriction_fits r.time_restriction q.time_restriction c.restricted,
        ))
        rs qs ((convert_rotations-eq-ok parse_time rs qs).0 e)
