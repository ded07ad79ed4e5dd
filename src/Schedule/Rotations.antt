-- ===== src/Schedule/Rotations.antt =====
-- `convertRotations`. `time.Parse(time.RFC3339, ·)` is the parameter `parse_time`; `none` is its
-- error, which the code replaces by its own.
use opsgenie_operator.Prelude.{String, List, [], ◌∷◌, Option, none, some, to_uint32}
use opsgenie_operator.Exec.{Outcome, ok, err, invalid_start_date, no_participants}
use opsgenie_operator.Exec.Fallible.{◌>>=◌, traverse}
use opsgenie_operator.Kube.{Time}
use opsgenie_operator.Api.Schedule.{OpsgenieRotation, OpsgenieTimeRestriction}
use opsgenie_operator.Opsgenie.Og.{Participant, Rotation, TimeRestriction}
use opsgenie_operator.Schedule.Days.{convert_time_restrictions}
use opsgenie_operator.Schedule.Participants.{convert_participants}

abbrev pub start_of : String → Option Time → Outcome Time
start_of text none = err (invalid_start_date text)
start_of text (some t) = ok t

-- `len(participants) == 0` is an error
abbrev pub require_participants : String → List Participant → Outcome (List Participant)
require_participants name [] = err (no_participants name)
require_participants name (p ∷ ps) = ok (p ∷ ps)

-- A restriction is converted if there is one.
abbrev pub convert_restriction : Option OpsgenieTimeRestriction → Outcome (Option TimeRestriction)
convert_restriction none = ok none
convert_restriction (some r) = do restriction ← convert_time_restrictions r; ok (some restriction)

-- `og.Rotation{…}`
abbrev pub rotation_of :
    OpsgenieRotation → Time → List Participant → Option TimeRestriction → Rotation
rotation_of r start participants restriction = record {
  name = r.name;
  type = r.type;
  start_date = some start;
  length = to_uint32 r.length;
  participants = participants;
  time_restriction = restriction;
}

module _ (parse_time : String → Option Time) where
  -- The loop's body.
  unfoldable pub convert_rotation : OpsgenieRotation → Outcome Rotation
  convert_rotation r = do
    start ← start_of r.start_date (parse_time r.start_date)
    converted ← convert_participants r.participants
    participants ← require_participants r.name converted
    restriction ← convert_restriction r.time_restriction
    ok (rotation_of r start participants restriction)

  unfoldable pub convert_rotations : List OpsgenieRotation → Outcome (List Rotation)
  convert_rotations = traverse convert_rotation
