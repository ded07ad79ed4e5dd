-- ===== src/Schedule/Participants.antt =====
-- `convertParticipants`.
use opsgenie_operator.Prelude.{◌&&◌, ◌||◌, List, ◌==◌, ◌!=◌, string_eq, if◌then◌else◌}
use opsgenie_operator.Exec.{
  Outcome, ok, err, participant_unnamed, user_unnamed, unsupported_participant,
}
use opsgenie_operator.Exec.Fallible.{traverse}
use opsgenie_operator.Api.Schedule.{OpsgenieParticipant}
use opsgenie_operator.Opsgenie.Og.{Participant}

-- `participant := og.Participant{Type: …}` with one more field assigned
abbrev pub with_id : OpsgenieParticipant → Participant
with_id p = record { type = p.type; id = p.id; name = ""; username = "" }

abbrev pub with_name : OpsgenieParticipant → Participant
with_name p = record { type = p.type; id = ""; name = p.name; username = "" }

abbrev pub with_username : OpsgenieParticipant → Participant
with_username p = record { type = p.type; id = ""; name = ""; username = p.username }

-- The `switch` of the loop's body.
abbrev pub by_type : OpsgenieParticipant → Outcome Participant
by_type p =
    if p.type == "user"
    then (if p.id != ""
        then ok (with_id p)
        else if p.username != ""
        then ok (with_username p)
        else err user_unnamed)
    else if p.type == "team" || (p.type == "escalation" || p.type == "role")
    then (if p.id != "" then ok (with_id p) else ok (with_name p))
    else err (unsupported_participant p.type)

-- The loop's body.
unfoldable pub convert_participant : OpsgenieParticipant → Outcome Participant
convert_participant p =
    if p.id == "" && (p.name == "" && p.username == "") then err participant_unnamed else by_type p

unfoldable pub convert_participants : List OpsgenieParticipant → Outcome (List Participant)
convert_participants = traverse convert_participant
