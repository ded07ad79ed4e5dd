-- ===== src/Schedule/Compare.antt =====
-- `areRotationsSame` and `isUpdateRequired`. A rotation's start date is a pointer, which the
-- comparison dereferences if the names and the types agree: without a date it panics.
use opsgenie_operator.Prelude.{
  Bool, true, false, not, ◌||◌, List, [], ◌∷◌, Option, none, some, length, ◌==◌, ◌!=◌, nat_eq,
  string_eq, int_eq, if◌then◌else◌,
}
use opsgenie_operator.Exec.{Outcome, ok, panicked}
use opsgenie_operator.Exec.Fallible.{◌>>=◌}
use opsgenie_operator.Kube.{Time}
use opsgenie_operator.Api.Schedule.{OpsgenieSchedule}
use opsgenie_operator.Opsgenie.Og.{Rotation}
use opsgenie_operator.Opsgenie.Schedule.{Schedule}

-- `a.Equal(*b)`
abbrev pub same_time : Option Time → Option Time → Outcome Bool
same_time none b = panicked
same_time (some a) none = panicked
same_time (some a) (some b) = ok (a == b)

-- The test of the loop's body, negated.
unfoldable pub is_rotation_same : Rotation → Rotation → Outcome Bool
is_rotation_same a b = if a.name != b.name || a.type != b.type then ok false else (do
  same_start ← same_time a.start_date b.start_date
  ok (if not same_start then false else not (a.length != b.length)))

-- The loop. Its index stays within both lists, since their lengths are equal.
unfoldable pub is_each_same : List Rotation → List Rotation → Outcome Bool
is_each_same [] bs = ok true
is_each_same (a ∷ existing) [] = panicked
is_each_same (a ∷ existing) (b ∷ rotations) =
    let rest = is_each_same existing rotations in
    do same ← is_rotation_same a b; if same then rest else ok false

unfoldable pub are_rotations_same : List Rotation → List Rotation → Outcome Bool
are_rotations_same existing rotations =
    if length existing != length rotations then ok false else is_each_same existing rotations

unfoldable pub is_update_required : OpsgenieSchedule → Schedule → List Rotation → Outcome Bool
is_update_required cr existing rotations =
    if cr.spec.description != existing.description || cr.spec.time_zone != existing.timezone
    then ok true
    else (do same ← are_rotations_same existing.rotations rotations; ok (not same))
