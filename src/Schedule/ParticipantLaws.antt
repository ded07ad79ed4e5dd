-- ===== src/Schedule/ParticipantLaws.antt =====
-- Which participants are accepted, and whom the converted ones name.
use text.Mathlib.TextEquality.{eq_iff}
use opsgenie_operator.Prelude.{String, ◌≡◌, ◌≢◌, ◌↔◌, ◌⊎◌, List, Pointwise, string_eq, arith}
use opsgenie_operator.Exec.{ok}
use opsgenie_operator.Exec.Fallible.{traverse_iff}
use opsgenie_operator.Api.Schedule.{OpsgenieParticipant}
use opsgenie_operator.Opsgenie.Og.{Participant}
use opsgenie_operator.Schedule.Participants.{convert_participant, convert_participants}

-- The type is one of those whose participants can be named.
abbrev pub IsNamedType : String → Type 0
IsNamedType t = (t ≡ "team") ⊎ ((t ≡ "escalation") ⊎ (t ≡ "role"))

-- A participant of a type that is named by nothing but an id, a name or a username.
abbrev pub id_alone : String → String → Participant
id_alone type id = record { type = type; id = id; name = ""; username = "" }

abbrev pub name_alone : String → String → Participant
name_alone type name = record { type = type; id = ""; name = name; username = "" }

abbrev pub username_alone : String → String → Participant
username_alone type username = record { type = type; id = ""; name = ""; username = username }

-- The type is kept. A user is known by the id, or else by the username; another participant by the id, or else by
-- the name, which may be empty if there is a username.
pub data Converts (p : OpsgenieParticipant) (q : Participant) : Type 0 where
  user_by_id : p.type ≡ "user" → p.id ≢ "" → q ≡ id_alone p.type p.id → Converts p q
  user_by_username :
      p.type ≡ "user"
      → p.id ≡ ""
      → p.username ≢ ""
      → q ≡ username_alone p.type p.username
      → Converts p q
  other_by_id : IsNamedType p.type → p.id ≢ "" → q ≡ id_alone p.type p.id → Converts p q
  other_by_name :
      IsNamedType p.type
      → p.id ≡ ""
      → (p.name ≢ "") ⊎ (p.username ≢ "")
      → q ≡ name_alone p.type p.name
      → Converts p q

user_no_team : ◌≢◌ {A = String} "user" "team"
user_no_team = ground (arith, eq_iff "user" "team")

user_no_escalation : ◌≢◌ {A = String} "user" "escalation"
user_no_escalation = ground (arith, eq_iff "user" "escalation")

user_no_role : ◌≢◌ {A = String} "user" "role"
user_no_role = ground (arith, eq_iff "user" "role")

sound : (p : OpsgenieParticipant) (q : Participant) → convert_participant p ≡ ok q → Converts p q
unfolding convert_participant
sound p q h = grind (arith, user_by_id, user_by_username, other_by_id, other_by_name)

complete : (p : OpsgenieParticipant) (q : Participant) → Converts p q → convert_participant p ≡ ok q
unfolding convert_participant
complete p q (user_by_id t i e) = ground arith
complete p q (user_by_username t i u e) = ground arith
complete p q (other_by_id t i e) = ground (arith, user_no_team, user_no_escalation, user_no_role)
complete p q (other_by_name t i n e) =
    ground (arith, user_no_team, user_no_escalation, user_no_role)

pub record IsAnonymous (q : Participant) : Type 0 where
  pub no_id : q.id ≡ ""
  pub no_name : q.name ≡ ""
  pub no_username : q.username ≡ ""

-- An accepted participant is converted to one that names nobody exactly if it is no user and has
-- neither an id nor a name.
pub convert_participant-IsAnonymous :
    (p : OpsgenieParticipant) (q : Participant)
    → convert_participant p ≡ ok q
    → IsAnonymous q ↔ ((p.type ≢ "user") × (p.id ≡ "") × (p.name ≡ ""))
unfolding convert_participant
convert_participant-IsAnonymous p q h = (λ a. ground arith, λ a. ground arith)

pub convert_participants-eq-ok :
    (ps : List OpsgenieParticipant) (qs : List Participant)
    → (convert_participants ps ≡ ok qs) ↔ Pointwise Converts ps qs
unfolding convert_participants
convert_participants-eq-ok = traverse_iff convert_participant λ p q. (sound p q, complete p q)
