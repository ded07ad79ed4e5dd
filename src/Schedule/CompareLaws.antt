-- ===== src/Schedule/CompareLaws.antt =====
-- What the comparison of rotations decides, what it does not look at, and when it panics.
use opsgenie_operator.Prelude.{
  Bool, true, false, ◌≡◌, ◌≢◌, ◌↔◌, ◌⊎◌, inl, inr, refl, List, [], ◌∷◌, none, All, Pointwise, arith,
  length, Bool-cases, length-Pointwise, nat_eq, string_eq, int_eq, ◌!=◌,
}
use opsgenie_operator.Exec.{ok}
use opsgenie_operator.Api.Schedule.{OpsgenieSchedule}
use opsgenie_operator.Opsgenie.Og.{Rotation}
use opsgenie_operator.Opsgenie.Schedule.{Schedule}
use opsgenie_operator.Schedule.Compare.{
  is_rotation_same, is_each_same, are_rotations_same, is_update_required,
}

-- Two rotations with the same name, type, start date and length.
pub record SameShift (a b : Rotation) : Type 0 where
  pub same_name : a.name ≡ b.name
  pub same_type : a.type ≡ b.type
  pub same_start : a.start_date ≡ b.start_date
  pub same_length : a.length ≡ b.length

abbrev pub HasStart : Rotation → Type 0
HasStart a = a.start_date ≢ none

is_rotation_same-eq-true :
    (a b : Rotation) → (is_rotation_same a b ≡ ok true) ↔ (SameShift a b × HasStart a)
unfolding is_rotation_same
is_rotation_same-eq-true a b = (λ h. ground arith, λ h. ground arith)

is_rotation_same_defined :
    (a b : Rotation)
    → HasStart a
    → HasStart b
    → (is_rotation_same a b ≡ ok true) ⊎ (is_rotation_same a b ≡ ok false)
unfolding is_rotation_same
is_rotation_same_defined a b ha hb = ground arith

abbrev pub Agrees : Rotation → Rotation → Type 0
Agrees a b = SameShift a b × HasStart a

is_each_same-eq-true :
    (xs ys : List Rotation)
    → length xs ≡ length ys
    → (is_each_same xs ys ≡ ok true) ↔ Pointwise Agrees xs ys
unfolding is_each_same
is_each_same-eq-true [] [] e = (λ h. tt, λ h. refl)
is_each_same-eq-true [] (y ∷ ys) e = absurd (omega arith)
is_each_same-eq-true (x ∷ xs) [] e = absurd (omega arith)
is_each_same-eq-true (x ∷ xs) (y ∷ ys) e =
    let (here, back) = is_rotation_same-eq-true x y in
    let (there, again) = is_each_same-eq-true xs ys (omega arith) in
    (λ h. (here (ground arith), there (ground arith)), λ p. ground (arith, back p.0, again p.1))

-- The comparison answers "same" exactly if the lists are equally long and, position by position,
-- the names, types, start dates and lengths agree and there is a start date.
pub are_rotations_same-eq-true :
    (existing rotations : List Rotation)
    → (are_rotations_same existing rotations ≡ ok true) ↔ Pointwise Agrees existing rotations
unfolding are_rotations_same
are_rotations_same-eq-true existing rotations = (
  λ h. (is_each_same-eq-true existing rotations (ground arith)).0 (ground arith),
  λ p.
      let e = length-Pointwise Agrees existing rotations p in
      ground (arith, (is_each_same-eq-true existing rotations e).1 p),
)

is_each_same_defined :
    (xs ys : List Rotation)
    → length xs ≡ length ys
    → All HasStart xs
    → All HasStart ys
    → (b : Bool) × (is_each_same xs ys ≡ ok b)
unfolding is_each_same
is_each_same_defined [] ys e hx hy = (true, refl)
is_each_same_defined (x ∷ xs) [] e hx hy = absurd (omega arith)
is_each_same_defined (x ∷ xs) (y ∷ ys) e hx hy =
    let (b, rest) = is_each_same_defined xs ys (omega arith) hx.1 hy.1 in
    elim (is_rotation_same_defined x y hx.0 hy.0) [
      | inl same ↦ (b, rw (same, rest))
      | inr other ↦ (false, rw other)
    ]

-- Where all rotations have a start date, the comparison does not panic.
pub are_rotations_same_defined :
    (existing rotations : List Rotation)
    → All HasStart existing
    → All HasStart rotations
    → (b : Bool) × (are_rotations_same existing rotations ≡ ok b)
unfolding are_rotations_same
are_rotations_same_defined existing rotations he hr =
    elim (Bool-cases (length existing != length rotations)) [
      | inl differ ↦ (false, rw differ)
      | inr equal ↦ rw equal (is_each_same_defined existing rotations (ground arith) he hr)
    ]

same_answer : (a b c : Rotation) → SameShift b c → is_rotation_same a b ≡ is_rotation_same a c
unfolding is_rotation_same
same_answer a b c s = rw (s.same_name, s.same_type, s.same_start, s.same_length)

same_answers :
    (existing bs cs : List Rotation)
    → Pointwise SameShift bs cs
    → is_each_same existing bs ≡ is_each_same existing cs
unfolding is_each_same
same_answers [] bs cs p = refl
same_answers (a ∷ existing) [] [] p = refl
same_answers (a ∷ existing) [] (c ∷ cs) p = absurd p
same_answers (a ∷ existing) (b ∷ bs) [] p = absurd p
same_answers (a ∷ existing) (b ∷ bs) (c ∷ cs) p =
    rw (same_answer a b c p.0, same_answers existing bs cs p.1)

-- Two lists of rotations that agree in names, types, start dates and lengths get the same answer,
-- whatever their participants and time restrictions are, and whatever the name and the owner team
-- of the schedule are: a change of those alone is never noticed.
pub is_update_required_blind :
    (cr cr' : OpsgenieSchedule) (existing : Schedule) (bs cs : List Rotation)
    → cr.spec.description ≡ cr'.spec.description
    → cr.spec.time_zone ≡ cr'.spec.time_zone
    → Pointwise SameShift bs cs
    → is_update_required cr existing bs ≡ is_update_required cr' existing cs
unfolding is_update_required are_rotations_same
is_update_required_blind cr cr' existing bs cs d z p =
    rw (d, z, length-Pointwise SameShift bs cs p, same_answers existing.rotations bs cs p)
