-- ===== src/Escalation/Lawful.antt =====
-- What the escalation controller relies on in Kubernetes and in Opsgenie's escalation API: while
-- nobody else writes, a read has no effect and answers the same again, a status update stores what
-- it is given, an escalation is found by its id, also one that was found by name or created, and
-- `Update` changes the fields that are sent, an empty field not being sent. Opsgenie may answer a
-- rule otherwise than it was sent: it chooses what was left empty, and fills in the names of the
-- teams and schedules that are notified. It answers no name for a user.
use opsgenie_operator.Prelude.{String, ◌≡◌, ◌≢◌, List, [], ◌∷◌, map, ◌==◌, string_eq, if◌then◌else◌}
use opsgenie_operator.Exec.{Reply, done}
use opsgenie_operator.Kube.{ObjectKey}
use opsgenie_operator.Api.Team.{OpsgenieTeam}
use opsgenie_operator.Api.Schedule.{OpsgenieSchedule}
use opsgenie_operator.Api.Escalation.{OpsgenieEscalation}
use opsgenie_operator.Opsgenie.Escalation.{
  GetRequest, CreateRequest, CreateResult, UpdateRequest, Escalation, Rule,
}
use opsgenie_operator.Escalation.Reconciler.{OpsgenieEscalationReconciler}
use opsgenie_operator.Escalation.Reconcile.{by_id, by_name}

abbrev pub sent_rules : List Rule → List Rule → List Rule
sent_rules [] old = old
sent_rules (x ∷ new) old = x ∷ new

-- What is relied on in the rules that Opsgenie answers for those that were sent.
pub record IsAnswer (answered : Rule → Rule) : Type 0 where
  pub condition_kept : (q : Rule) → q.condition ≢ "" → (answered q).condition ≡ q.condition
  pub notify_type_kept : (q : Rule) → q.notify_type ≢ "" → (answered q).notify_type ≡ q.notify_type
  pub delay_kept : (q : Rule) → (answered q).delay ≡ q.delay
  pub recipient_type_kept : (q : Rule) → (answered q).recipient.type ≡ q.recipient.type
  pub user_unnamed : (q : Rule) → q.recipient.type ≡ "user" → (answered q).recipient.name ≡ ""

abbrev pub patch : (Rule → Rule) → UpdateRequest → Escalation → Escalation
patch answered q x = record {
  id = x.id;
  name = if q.name == "" then x.name else q.name;
  description = if q.description == "" then x.description else q.description;
  rules = sent_rules (map answered q.rules) x.rules;
}

abbrev pub made : (Rule → Rule) → CreateRequest → String → Escalation
made answered q id = record {
  id = id;
  name = q.name;
  description = q.description;
  rules = map answered q.rules;
}

module _ {W : Type 0} (r : OpsgenieEscalationReconciler W) where
  open r use {client, team_client, schedule_client, opsgenie_client, now}

  -- What the four reads answer in a world.
  abbrev pub resource_at : ObjectKey → W → Reply OpsgenieEscalation
  resource_at k w = (client.get k w).0

  abbrev pub team_at : ObjectKey → W → Reply OpsgenieTeam
  team_at k w = (team_client.get k w).0

  abbrev pub schedule_at : ObjectKey → W → Reply OpsgenieSchedule
  schedule_at k w = (schedule_client.get k w).0

  abbrev pub escalation_at : GetRequest → W → Reply Escalation
  escalation_at q w = (opsgenie_client.get q w).0

  -- The resources that an escalation refers to are the same.
  pub record SameReferences (w w' : W) : Type 0 where
    pub same_team : (k : ObjectKey) → team_at k w' ≡ team_at k w
    pub same_schedule : (k : ObjectKey) → schedule_at k w' ≡ schedule_at k w

  pub record IsLawful : Type 0 where
    pub answered : Rule → Rule
    pub answer : IsAnswer answered
    pub get_quiet : (k : ObjectKey) (w : W) → (client.get k w).1 ≡ w
    pub get_team_quiet : (k : ObjectKey) (w : W) → (team_client.get k w).1 ≡ w
    pub get_schedule_quiet : (k : ObjectKey) (w : W) → (schedule_client.get k w).1 ≡ w
    pub get_escalation_quiet : (q : GetRequest) (w : W) → (opsgenie_client.get q w).1 ≡ w
    pub now_kept : (w : W) → SameReferences w (now w).1
    pub now_escalation : (q : GetRequest) (w : W) → escalation_at q (now w).1 ≡ escalation_at q w
    -- an answer is about what was asked for
    pub found_id :
        (id : String) (w : W) {x : Escalation} → escalation_at (by_id id) w ≡ done x → x.id ≡ id
    pub found_by_name :
        (n : String) (w : W) {x : Escalation}
        → escalation_at (by_name n) w ≡ done x
        → x.id ≢ ""
        → escalation_at (by_id x.id) w ≡ done x
    pub status_answer :
        (c : OpsgenieEscalation) {c' : OpsgenieEscalation} {w w' : W}
        → client.update_status c w ≡ (done c', w')
        → c' ≡ c
    pub status_stored :
        (c : OpsgenieEscalation) {c' : OpsgenieEscalation} {w w' : W}
        → client.update_status c w ≡ (done c', w')
        → resource_at c.metadata w' ≡ done c
    pub status_kept :
        (c : OpsgenieEscalation) {c' : OpsgenieEscalation} {w w' : W}
        → client.update_status c w ≡ (done c', w')
        → SameReferences w w'
    pub status_escalation :
        (c : OpsgenieEscalation) {c' : OpsgenieEscalation} {w w' : W}
        → client.update_status c w ≡ (done c', w')
        → (q : GetRequest) → escalation_at q w' ≡ escalation_at q w
    pub create_id :
        (q : CreateRequest) {a : CreateResult} {w w' : W}
        → opsgenie_client.create q w ≡ (done a, w')
        → a.id ≢ ""
    pub create_stored :
        (q : CreateRequest) {a : CreateResult} {w w' : W}
        → opsgenie_client.create q w ≡ (done a, w')
        → escalation_at (by_id a.id) w' ≡ done (made answered q a.id)
    pub create_kept :
        (q : CreateRequest) {a : CreateResult} {w w' : W}
        → opsgenie_client.create q w ≡ (done a, w')
        → SameReferences w w'
    pub update_stored :
        (q : UpdateRequest) {x : Escalation} {w w' : W}
        → escalation_at (by_id q.identifier) w ≡ done x
        → opsgenie_client.update q w ≡ (done tt, w')
        → escalation_at (by_id q.identifier) w' ≡ done (patch answered q x)
    pub update_kept :
        (q : UpdateRequest) {w w' : W}
        → opsgenie_client.update q w ≡ (done tt, w')
        → SameReferences w w'
