-- ===== src/Escalation/Steps.antt =====
-- What the writes of a reconciliation of an escalation reach in a lawful world.
use mathlib.Core.Path.{subst}
use opsgenie_operator.Prelude.{String, false, ◌≡◌, ◌≢◌, refl, ap, ◌∙◌, List, string_eq}
use opsgenie_operator.Exec.{Reply, done, failed, ok, attempt, ◌>>=◌, Result}
use opsgenie_operator.Exec.Laws.{call-eq-ok, on_ok}
use opsgenie_operator.Kube.{Time}
use opsgenie_operator.Api.Escalation.{OpsgenieEscalation}
use opsgenie_operator.Opsgenie.Escalation.{GetRequest, CreateResult, Escalation, Rule}
use opsgenie_operator.Escalation.Reconciler.{OpsgenieEscalationReconciler}
use opsgenie_operator.Escalation.Compare.{is_update_required}
use opsgenie_operator.Escalation.CompareLaws.{IsSent}
use opsgenie_operator.Escalation.Rules.{resolve_team_id, map_escalation_rules}
use opsgenie_operator.Escalation.Reconcile.{
  create_missing, after_create, record_escalation_id, write_status, resolve, activate,
  create_request, by_id,
}
use opsgenie_operator.Escalation.Lawful.{IsLawful, SameReferences, resource_at, escalation_at, made}
use opsgenie_operator.Escalation.Settled.{
  IsExpressible, Keeps, created_current, resolve_team_id_same, map_escalation_rules_same, IsSettled,
}

module _ {W : Type 0} (r : OpsgenieEscalationReconciler W) (laws : IsLawful r) where
  open r use {client, opsgenie_client, now}

  -- The references of a resource are resolved, and its rules converted.
  pub record Refers (cr : OpsgenieEscalation) (team_id : String) (rules : List Rule) (w : W)
      : Type 0 where
    pub owned : (resolve_team_id r cr w).0 ≡ ok team_id
    pub mapped : (map_escalation_rules r cr.metadata.namespace cr.spec.rules w).0 ≡ ok rules
    pub sent : IsSent cr.spec.rules rules

  pub Refers-Keeps :
      (cr cr' : OpsgenieEscalation) (team_id : String) (rules : List Rule) (w w' : W)
      → Keeps cr cr'
      → SameReferences r w w'
      → Refers cr team_id rules w
      → Refers cr' team_id rules w'
  unfolding resolve_team_id
  Refers-Keeps cr cr' team_id rules w w' k s f =
      let same = resolve_team_id_same r laws cr s ∙ f.owned in
      record {
        owned = rw (k.spec_kept, k.metadata_kept) same;
        mapped =
            rw (k.spec_kept, k.metadata_kept)
              (map_escalation_rules_same r laws cr.metadata.namespace cr.spec.rules s ∙ f.mapped);
        sent = rw k.spec_kept f.sent;
      }

  pub SameReferences-trans :
      {a b c : W} → SameReferences r a b → SameReferences r b c → SameReferences r a c
  SameReferences-trans s t = record {
    same_team = λ k. t.same_team k ∙ s.same_team k;
    same_schedule = λ k. t.same_schedule k ∙ s.same_schedule k;
  }

  -- A status is written with the time: it is stored, and the references and escalations stay.
  pub record Stamped (f : Time → OpsgenieEscalation) (c : OpsgenieEscalation) (w w' : W)
      : Type 0 where
    pub time : Time
    pub answer : c ≡ f time
    pub stored : resource_at r (f time).metadata w' ≡ done (f time)
    pub same : SameReferences r w w'
    pub escalations : (q : GetRequest) → escalation_at r q w' ≡ escalation_at r q w

  pub write-Stamped :
      (f : Time → OpsgenieEscalation) {c : OpsgenieEscalation} {w w' : W}
      → (attempt now >>= λ t. write_status r (f t)) w ≡ (ok c, w')
      → Stamped f c w w'
  write-Stamped f {w = w} e =
      let written = call-eq-ok (client.update_status (f (now w).0)) e in
      record {
        time = (now w).0;
        answer = laws.status_answer (f (now w).0) written;
        stored = laws.status_stored (f (now w).0) written;
        same = SameReferences-trans (laws.now_kept w) (laws.status_kept (f (now w).0) written);
        escalations = λ q. laws.status_escalation (f (now w).0) written q ∙ laws.now_escalation q w;
      }

  -- What a reconciliation that ran to its end has reached.
  pub record Reached (cr : OpsgenieEscalation) (w : W) : Type 0 where
    pub resource : OpsgenieEscalation
    pub escalation : Escalation
    pub keeps : Keeps cr resource
    pub settled : IsSettled r laws resource escalation w

  pub settled_by :
      (cr c : OpsgenieEscalation) (x : Escalation) (team_id : String) (rules : List Rule) (w w' : W)
      → Refers cr team_id rules w
      → SameReferences r w w'
      → Keeps cr c
      → resource_at r c.metadata w' ≡ done c
      → c.status.escalation_id ≢ ""
      → escalation_at r (by_id c.status.escalation_id) w' ≡ done x
      → is_update_required c x ≡ false
      → Reached cr w'
  settled_by cr c x team_id rules w w' f s k stored known found current =
      let there = Refers-Keeps cr c team_id rules w w' k s f in
      record {
        resource = c;
        escalation = x;
        keeps = k;
        settled = record {
          team_id = team_id;
          rules = rules;
          stored = stored;
          owned = there.owned;
          mapped = there.mapped;
          known = known;
          found = found;
          current = current;
        };
      }

  after_create-Reached :
      (cr : OpsgenieEscalation) (team_id : String) (rules : List Rule) (w v : W)
      (reply : Reply CreateResult) {w' : W} {res : Result}
      → IsExpressible cr
      → Refers cr team_id rules w
      → opsgenie_client.create (create_request cr team_id rules) w ≡ (reply, v)
      → after_create r (resolve cr team_id) reply v ≡ (ok res, w')
      → Reached cr w'
  unfolding after_create record_escalation_id
  after_create-Reached cr team_id rules w v (failed x) ex f created e = cc
  after_create-Reached cr team_id rules w v (done a) ex f created e =
      let q = create_request cr team_id rules in
      on_ok (record_escalation_id r (resolve cr team_id) a.id) _ e λ c v₂ ran last.
        let s = write-Stamped (activate (resolve cr team_id) a.id) ran in
        let keeps : Keeps cr (activate (resolve cr team_id) a.id s.time) = record {
          spec_kept = refl;
          metadata_kept = refl;
        } in
        subst (Reached cr) (ap (λ x. x.1) last) (
          settled_by cr (activate (resolve cr team_id) a.id s.time) (made laws.answered q a.id)
            team_id rules w v₂ f (SameReferences-trans (laws.create_kept q created) s.same) keeps
            s.stored (laws.create_id q created)
            (s.escalations (by_id a.id) ∙ laws.create_stored q created)
            (created_current laws.answered cr _ a.id team_id rules laws.answer ex f.sent keeps))

  pub create_missing-Reached :
      (cr : OpsgenieEscalation) (team_id : String) (rules : List Rule) (w : W) {w' : W}
      {res : Result}
      → IsExpressible cr
      → Refers cr team_id rules w
      → create_missing r (resolve cr team_id) team_id rules w ≡ (ok res, w')
      → Reached cr w'
  unfolding create_missing
  create_missing-Reached cr team_id rules w ex f e =
      let q = create_request cr team_id rules in
      after_create-Reached cr team_id rules w (opsgenie_client.create q w).1
        (opsgenie_client.create q w).0 ex f refl e
