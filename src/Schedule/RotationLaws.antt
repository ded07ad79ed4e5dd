-- ===== src/Schedule/RotationLaws.antt =====
-- Which rotations are accepted, and what they become.
use mathlib.Core.Path.{subst}
use opsgenie_operator.Prelude.{
  String, ◌≡◌, ◌≢◌, ◌↔◌, refl, sym, ap, ◌∙◌, List, [], ◌∷◌, Option, none, some, Pointwise,
  to_uint32, arith,
}
use opsgenie_operator.Exec.{ok, panicked}
use opsgenie_operator.Exec.Fallible.{traverse_iff, traverse_defined, on_ok}
use opsgenie_operator.Kube.{Time}
use opsgenie_operator.Api.Schedule.{OpsgenieParticipant, OpsgenieRotation, OpsgenieTimeRestriction}
use opsgenie_operator.Opsgenie.Og.{Participant, Rotation, TimeRestriction}
use opsgenie_operator.Schedule.DayLaws.{IntervalConverts, convert_time_restrictions-eq-ok}
use opsgenie_operator.Schedule.Days.{
  convert_time_restrictions, convert_intervals, convert_interval, map_day_int_to_string,
}
use opsgenie_operator.Schedule.Participants.{convert_participants, convert_participant}
use opsgenie_operator.Schedule.ParticipantLaws.{Converts, convert_participants-eq-ok}
use opsgenie_operator.Schedule.Rotations.{
  start_of, rotation_of, require_participants, convert_restriction, convert_rotation,
  convert_rotations,
}

-- A restriction is there on both sides or on neither, and is converted.
abbrev pub RestrictionConverts : Option OpsgenieTimeRestriction → Option TimeRestriction → Type 0
RestrictionConverts none none = Unit
RestrictionConverts (some r) (some t) =
    (r.type ≢ "") × (t.type ≡ r.type) × Pointwise IntervalConverts r.intervals t.restriction_list
RestrictionConverts _ _ = ⊥

convert_restriction-eq-ok :
    (r : Option OpsgenieTimeRestriction) (t : Option TimeRestriction)
    → (convert_restriction r ≡ ok t) ↔ RestrictionConverts r t
convert_restriction-eq-ok none none = ground arith
convert_restriction-eq-ok none (some t) = ground arith
convert_restriction-eq-ok (some r) none = (λ h. ground arith, λ h. absurd h)
convert_restriction-eq-ok (some r) (some t) =
    let (sound, complete) = convert_time_restrictions-eq-ok r t in
    (λ h. sound (ground arith), λ h. rw (complete h))

start_of-eq-ok : (text : String) (o : Option Time) {t : Time} → start_of text o ≡ ok t → o ≡ some t
start_of-eq-ok text none h = cc
start_of-eq-ok text (some t) h = ground arith

require_participants-eq-ok :
    (name : String) (ps : List Participant) {qs : List Participant}
    → require_participants name ps ≡ ok qs
    → (ps ≡ qs) × (qs ≢ [])
require_participants-eq-ok name [] h = cc
require_participants-eq-ok name (p ∷ ps) h = ground arith

require_participants_manned :
    (name : String) (ps : List OpsgenieParticipant) (qs : List Participant)
    → ps ≢ []
    → Pointwise Converts ps qs
    → require_participants name qs ≡ ok qs
require_participants_manned name [] qs h p = absurd (h refl)
require_participants_manned name (p ∷ ps) [] h x = absurd x
require_participants_manned name (p ∷ ps) (q ∷ qs) h x = refl

manned_of_nonempty :
    (ps : List OpsgenieParticipant) (qs : List Participant)
    → qs ≢ []
    → Pointwise Converts ps qs
    → ps ≢ []
manned_of_nonempty [] [] h p = absurd (h refl)
manned_of_nonempty [] (q ∷ qs) h p = absurd p
manned_of_nonempty (p ∷ ps) qs h x = λ e. cc

convert_participants_defined : (ps : List OpsgenieParticipant) → convert_participants ps ≢ panicked
unfolding convert_participants convert_participant
convert_participants_defined = traverse_defined convert_participant λ p. ground arith

convert_restriction_defined :
    (r : Option OpsgenieTimeRestriction) → convert_restriction r ≢ panicked
unfolding convert_time_restrictions convert_intervals convert_interval map_day_int_to_string
convert_restriction_defined none = λ h. cc
convert_restriction_defined (some r) =
    let inner = traverse_defined convert_interval (λ i. ground arith) r.intervals in ground arith

module _ (parse_time : String → Option Time) where
  -- What a converted rotation says.
  pub record RotationConverts (r : OpsgenieRotation) (q : Rotation) : Type 0 where
    pub name_kept : q.name ≡ r.name
    pub type_kept : q.type ≡ r.type
    pub start_parsed : q.start_date ≡ parse_time r.start_date
    pub start_valid : parse_time r.start_date ≢ none
    pub length_cut : q.length ≡ to_uint32 r.length
    pub converted : Pointwise Converts r.participants q.participants
    pub manned : r.participants ≢ []
    pub restricted : RestrictionConverts r.time_restriction q.time_restriction

  built :
      (r : OpsgenieRotation) (q : Rotation) (t : Time) (ps ps' : List Participant)
      (x : Option TimeRestriction)
      → parse_time r.start_date ≡ some t
      → convert_participants r.participants ≡ ok ps
      → (ps ≡ ps') × (ps' ≢ [])
      → convert_restriction r.time_restriction ≡ ok x
      → ok (rotation_of r t ps' x) ≡ ok q
      → RotationConverts r q
  built r q t ps ps' x et eps (same, manned) ex e =
      let made : rotation_of r t ps' x ≡ q = ground arith in
      let pairs = (convert_participants-eq-ok r.participants ps').0 (eps ∙ ap ok same) in
      subst (RotationConverts r) made (record {
        name_kept = refl;
        type_kept = refl;
        start_parsed = sym et;
        start_valid = λ n. cc;
        length_cut = refl;
        converted = pairs;
        manned = manned_of_nonempty r.participants ps' manned pairs;
        restricted = (convert_restriction-eq-ok r.time_restriction x).0 ex;
      })

  complete :
      (r : OpsgenieRotation) (q : Rotation) (o : Option Time)
      → parse_time r.start_date ≡ o
      → RotationConverts r q
      → convert_rotation parse_time r ≡ ok q
  unfolding convert_rotation
  complete r q none e c = absurd (c.start_valid e)
  complete r q (some t) e c =
      rw
        (
          e,
          (convert_participants-eq-ok r.participants q.participants).1 c.converted,
          require_participants_manned r.name r.participants q.participants c.manned c.converted,
          (convert_restriction-eq-ok r.time_restriction q.time_restriction).1 c.restricted,
        )
        (ground arith)

  convert_rotation-eq-ok :
      (r : OpsgenieRotation) (q : Rotation)
      → (convert_rotation parse_time r ≡ ok q) ↔ RotationConverts r q
  unfolding convert_rotation
  convert_rotation-eq-ok r q = (
    λ h. on_ok (start_of r.start_date (parse_time r.start_date)) _ h λ t et h₁.
        on_ok (convert_participants r.participants) _ h₁ λ ps eps h₂.
          on_ok (require_participants r.name ps) _ h₂ λ ps' eps' h₃.
            on_ok (convert_restriction r.time_restriction) _ h₃ λ x ex h₄.
              built r q t ps ps' x (start_of-eq-ok _ _ et) eps
                (require_participants-eq-ok _ ps eps') ex h₄,
    λ c. complete r q (parse_time r.start_date) refl c,
  )

  -- Rotations are accepted exactly if each of them has a start date that parses, at least one
  -- participant, valid participants and a valid time restriction or none; the results keep the
  -- name and the type, have the parsed date, the length as a `uint32`, and the converted
  -- participants and restriction, in order. The end date of a resource's rotation is neither looked at
  -- nor sent.
  pub convert_rotations-eq-ok :
      (rs : List OpsgenieRotation) (qs : List Rotation)
      → (convert_rotations parse_time rs ≡ ok qs) ↔ Pointwise RotationConverts rs qs
  unfolding convert_rotations
  convert_rotations-eq-ok = traverse_iff (convert_rotation parse_time) convert_rotation-eq-ok

  convert_rotation_defined : (r : OpsgenieRotation) → convert_rotation parse_time r ≢ panicked
  unfolding convert_rotation
  convert_rotation_defined r =
      let people = convert_participants_defined r.participants in
      let times = convert_restriction_defined r.time_restriction in ground arith

  -- The conversion of rotations returns rotations or an error, and never panics.
  pub convert_rotations_defined :
      (rs : List OpsgenieRotation) → convert_rotations parse_time rs ≢ panicked
  unfolding convert_rotations
  convert_rotations_defined =
      traverse_defined (convert_rotation parse_time) convert_rotation_defined
