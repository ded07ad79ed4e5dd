-- ===== src/Escalation/Memory.antt =====
-- A world with one resource and at most one escalation in Opsgenie, which shows that the assumptions
-- of `Escalation.Lawful` can be met and lets the tests run the reconciler. It answers a name for the
-- recipients that are no users.
use text.Mathlib.TextEquality.{eq_iff}
use opsgenie_operator.Prelude.{
  String, Bool, true, ◌≡◌, ◌≢◌, refl, ap, Option, none, some, pos, ◌==◌, string_eq, if◌then◌else◌,
  arith,
}
use opsgenie_operator.Exec.{Reply, done, failed, ApiError}
use opsgenie_operator.Kube.{key_eq}
use opsgenie_operator.Api.Schedule.{OpsgenieSchedule}
use opsgenie_operator.Api.Escalation.{OpsgenieEscalation}
use opsgenie_operator.Opsgenie.Og.{IdentifierType}
use opsgenie_operator.Opsgenie.Escalation.{
  CreateRequest, CreateResult, UpdateRequest, Escalation, Rule,
}
use opsgenie_operator.Escalation.Reconciler.{OpsgenieEscalationReconciler}
use opsgenie_operator.Escalation.Lawful.{IsLawful, IsAnswer, patch, made}

pub record World : Type 0 where
  pub resource : OpsgenieEscalation
  pub escalation : Option Escalation

abbrev not_found : ApiError
not_found = record { message = "not found"; not_found = true }

abbrev has : IdentifierType → String → Escalation → Bool
has IdentifierType.id v x = x.id == v
has IdentifierType.name v x = x.name == v

abbrev answer : IdentifierType → String → Option Escalation → Reply Escalation
answer t v none = failed not_found
answer t v (some x) = if has t v x then done x else failed not_found

-- What is answered for a rule that was sent.
abbrev named : Rule → Rule
named q =
    if q.recipient.type == "user"
    then record q { recipient = record (q.recipient) { name = "" } }
    else record q { recipient = record (q.recipient) { name = "name in Opsgenie" } }

named-IsAnswer : IsAnswer named
named-IsAnswer = record {
  condition_kept = λ q h. ground arith;
  notify_type_kept = λ q h. ground arith;
  delay_kept = λ q. ground arith;
  recipient_type_kept = λ q. ground arith;
  user_unnamed = λ q h. ground arith;
}

abbrev patched : UpdateRequest → Option Escalation → Option Escalation
patched q none = none
patched q (some x) = if x.id == q.identifier then some (patch named q x) else some x

module _ (schedule : OpsgenieSchedule) where
  abbrev pub memory : OpsgenieEscalationReconciler World
  memory = record {
    client = record {
      get = λ k w. (if w.resource.metadata == k then done w.resource else failed not_found, w);
      update_status = λ c w. (done c, record w { resource = c });
    };
    team_client = record {
      get = λ k w. (failed not_found, w);
      update_status = λ c w. (failed not_found, w);
    };
    schedule_client = record {
      get = λ k w. (if schedule.metadata == k then done schedule else failed not_found, w);
      update_status = λ c w. (failed not_found, w);
    };
    opsgenie_client = record {
      get = λ q w. (answer q.identifier_type q.identifier w.escalation, w);
      create =
          λ q w. (done (record { id = "E1" }), record w { escalation = some (made named q "E1") });
      update = λ q w. (done tt, record w { escalation = patched q w.escalation });
    };
    record_event = λ e w. (tt, w);
    now = λ w. (pos 7, w);
  }

  by_id_of_answer :
      (id : String) (e : Option Escalation) {x : Escalation}
      → answer IdentifierType.id id e ≡ done x
      → x.id ≡ id
  by_id_of_answer id none h = cc
  by_id_of_answer id (some y) h = ground arith

  by_id_of_named :
      (n : String) (e : Option Escalation) {x : Escalation}
      → answer IdentifierType.name n e ≡ done x
      → answer IdentifierType.id x.id e ≡ done x
  by_id_of_named n none h = cc
  by_id_of_named n (some y) h = ground arith

  answer-patched :
      (q : UpdateRequest) (e : Option Escalation) {x : Escalation}
      → answer IdentifierType.id q.identifier e ≡ done x
      → answer IdentifierType.id q.identifier (patched q e) ≡ done (patch named q x)
  answer-patched q none h = cc
  answer-patched q (some y) h = ground arith

  id_kept :
      (q : CreateRequest) (w : World) {a : CreateResult} {w' : World}
      → memory.opsgenie_client.create q w ≡ (done a, w')
      → a.id ≢ ""
  id_kept q w h e = ground (arith, eq_iff "E1" "")

  pub memory-IsLawful : IsLawful memory
  memory-IsLawful = record {
    answered = named;
    answer = named-IsAnswer;
    get_quiet = λ k w. refl;
    get_team_quiet = λ k w. refl;
    get_schedule_quiet = λ k w. refl;
    get_escalation_quiet = λ q w. refl;
    now_kept = λ w. record { same_team = λ k. refl; same_schedule = λ k. refl };
    now_escalation = λ q w. refl;
    found_id = λ id w h. by_id_of_answer id w.escalation h;
    found_by_name = λ n w h known. by_id_of_named n w.escalation h;
    status_answer = λ c h. ground arith;
    status_stored = λ c h. ground arith;
    status_kept = λ c h. record { same_team = λ k. refl; same_schedule = λ k. refl };
    status_escalation = λ c h q. rw (← ap (λ r. r.1) h) refl;
    create_id = λ q {w = w} h. id_kept q w h;
    create_stored = λ q h. ground arith;
    create_kept = λ q h. record { same_team = λ k. refl; same_schedule = λ k. refl };
    update_stored =
        λ q {w = w} found h. rw (← ap (λ r. r.1) h) (answer-patched q w.escalation found);
    update_kept = λ q h. record { same_team = λ k. refl; same_schedule = λ k. refl };
  }
