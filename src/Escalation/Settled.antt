-- ===== src/Escalation/Settled.antt =====
-- The states in which a reconciliation of an escalation has nothing to do.
use mathlib.Core.Path.{subst}
use opsgenie_operator.Prelude.{
  String, true, false, ◌≡◌, ◌≢◌, refl, sym, ap, ◌∙◌, List, [], ◌∷◌, map, All, Pointwise, string_eq,
  arith,
}
use opsgenie_operator.Exec.{done, Outcome, ok, err, panicked, Proc, continue, five_minutes, ◌>>=◌}
use opsgenie_operator.Exec.Laws.{on_ok}
use opsgenie_operator.Api.Escalation.{
  OpsgenieEscalation, OpsgenieEscalationRecipient, OpsgenieEscalationRule,
}
use opsgenie_operator.Opsgenie.Escalation.{Escalation, Rule}
use opsgenie_operator.Escalation.Reconciler.{OpsgenieEscalationReconciler}
use opsgenie_operator.Escalation.Compare.{is_update_required, compare_escalation_rules}
use opsgenie_operator.Escalation.CompareLaws.{
  IsSent, SameRule, sent_type, compare_escalation_rules-eq-true,
}
use opsgenie_operator.Escalation.Rules.{
  Identity, build_rule, resolve_team_id, resolve_recipient_id, map_escalation_rules,
}
use opsgenie_operator.Escalation.Reconcile.{
  reconcile, find_existing, write, update_existing, resolve, update_request, create_request, by_id,
}
use opsgenie_operator.Escalation.Lawful.{
  IsLawful, IsAnswer, SameReferences, resource_at, escalation_at, patch, made, sent_rules,
}

-- A rule for a user that is not given by an id, which the comparison does not recognise, with
-- nothing that is left for Opsgenie to choose.
pub record IsComparable (rule : OpsgenieEscalationRule) : Type 0 where
  pub conditioned : rule.condition ≢ ""
  pub notifying : rule.notify_type ≢ ""
  pub for_user : rule.recipient.type ≡ "user"
  pub unnumbered : rule.recipient.id ≡ ""

-- A resource whose fields can all be sent by an update, which does not send empty ones, and whose
-- rules the comparison recognises in Opsgenie's answer.
pub record IsExpressible (cr : OpsgenieEscalation) : Type 0 where
  pub named : cr.spec.name ≢ ""
  pub described : cr.spec.description ≢ ""
  pub ruled : cr.spec.rules ≢ []
  pub comparable : All IsComparable cr.spec.rules

-- Nothing but the status differs.
pub record Keeps (cr cr' : OpsgenieEscalation) : Type 0 where
  pub spec_kept : cr'.spec ≡ cr.spec
  pub metadata_kept : cr'.metadata ≡ cr.metadata

sent_rules_all :
    (answered : Rule → Rule) (rules : List OpsgenieEscalationRule) (sent old : List Rule)
    → rules ≢ []
    → IsSent rules sent
    → sent_rules (map answered sent) old ≡ map answered sent
sent_rules_all answered [] sent old h p = absurd (h refl)
sent_rules_all answered (rule ∷ rules) [] old h p = absurd p
sent_rules_all answered (rule ∷ rules) (x ∷ sent) old h p = refl

-- What Opsgenie answers for the rules that are sent is found equal to the resource's rules.
same_as_answered :
    (answered : Rule → Rule) (rule : OpsgenieEscalationRule) (q : Rule) (who : Identity)
    → IsAnswer answered
    → IsComparable rule
    → q ≡ build_rule rule who
    → SameRule rule (answered q)
same_as_answered answered rule q who a c e =
    let typed = ap (λ (x : Rule). x.recipient.type) e ∙ sent_type rule.recipient.type who in
    let condition = ap (λ (x : Rule). x.condition) e in
    let notify_type = ap (λ (x : Rule). x.notify_type) e in
    record {
      same_condition = sym (a.condition_kept q (rw condition c.conditioned) ∙ condition);
      same_notify_type = sym (a.notify_type_kept q (rw notify_type c.notifying) ∙ notify_type);
      same_delay = sym (a.delay_kept q ∙ ap (λ (x : Rule). x.delay) e);
      same_recipient_type = sym (a.recipient_type_kept q ∙ typed);
      id_is_name = c.unnumbered ∙ sym (a.user_unnamed q (typed ∙ c.for_user));
    }

each_as_answered :
    (answered : Rule → Rule) (rules : List OpsgenieEscalationRule) (sent : List Rule)
    → IsAnswer answered
    → All IsComparable rules
    → IsSent rules sent
    → Pointwise SameRule rules (map answered sent)
each_as_answered answered [] [] a c s = tt
each_as_answered answered [] (q ∷ sent) a c s = absurd s
each_as_answered answered (rule ∷ rules) [] a c s = absurd s
each_as_answered answered (rule ∷ rules) (q ∷ sent) a (c, cs) ((who, e), s) =
    (same_as_answered answered rule q who a c e, each_as_answered answered rules sent a cs s)

rules_recognised :
    (answered : Rule → Rule) (rules : List OpsgenieEscalationRule) (sent : List Rule)
    → IsAnswer answered
    → All IsComparable rules
    → IsSent rules sent
    → compare_escalation_rules rules (map answered sent) ≡ true
rules_recognised answered rules sent a c s =
    (compare_escalation_rules-eq-true rules (map answered sent)).1
      (each_as_answered answered rules sent a c s)

pub updated_current :
    (answered : Rule → Rule) (cr cr' : OpsgenieEscalation) (id team_id : String) (sent : List Rule)
    (x : Escalation)
    → IsAnswer answered
    → IsExpressible cr
    → IsSent cr.spec.rules sent
    → Keeps cr cr'
    → is_update_required cr' (patch answered (update_request cr id team_id sent) x) ≡ false
unfolding is_update_required
updated_current answered cr cr' id team_id sent x a e s k =
    rw
      (
        k.spec_kept,
        sent_rules_all answered cr.spec.rules sent x.rules e.ruled s,
        rules_recognised answered cr.spec.rules sent a e.comparable s,
      )
      (ground (arith, e.named, e.described))

pub created_current :
    (answered : Rule → Rule) (cr cr' : OpsgenieEscalation) (id team_id : String) (sent : List Rule)
    → IsAnswer answered
    → IsExpressible cr
    → IsSent cr.spec.rules sent
    → Keeps cr cr'
    → is_update_required cr' (made answered (create_request cr team_id sent) id) ≡ false
unfolding is_update_required
created_current answered cr cr' id team_id sent a e s k =
    rw (k.spec_kept, rules_recognised answered cr.spec.rules sent a e.comparable s) (ground arith)

module _ {W : Type 0} (r : OpsgenieEscalationReconciler W) (laws : IsLawful r) where
  open r use {client, team_client, schedule_client, opsgenie_client, now}

  pub resolve_team_id-quiet : (cr : OpsgenieEscalation) (w : W) → (resolve_team_id r cr w).1 ≡ w
  unfolding resolve_team_id
  resolve_team_id-quiet cr w = grind (arith, laws.get_team_quiet)

  resolve_recipient_id-quiet :
      (p : OpsgenieEscalationRecipient) (namespace : String) (w : W)
      → (resolve_recipient_id r p namespace w).1 ≡ w
  unfolding resolve_recipient_id
  resolve_recipient_id-quiet p namespace w =
      grind (arith, laws.get_team_quiet, laws.get_schedule_quiet)

  pub map_escalation_rules-quiet :
      (namespace : String) (rules : List OpsgenieEscalationRule) (w : W)
      → (map_escalation_rules r namespace rules w).1 ≡ w
  unfolding map_escalation_rules
  map_escalation_rules-quiet namespace [] w = refl
  map_escalation_rules-quiet namespace (rule ∷ rules) w = grind (
    arith,
    resolve_recipient_id-quiet rule.recipient namespace w,
    map_escalation_rules-quiet namespace rules w,
  )

  pub resolve_team_id_same :
      (cr : OpsgenieEscalation) {w w' : W}
      → SameReferences r w w'
      → (resolve_team_id r cr w').0 ≡ (resolve_team_id r cr w).0
  unfolding resolve_team_id
  resolve_team_id_same cr s = grind (arith, s.same_team)

  continue_same :
      {A B : Type 0} (o : Outcome A) (f : A → Proc W B) {v v' : W}
      → ((a : A) → (f a v').0 ≡ (f a v).0)
      → (continue o f v').0 ≡ (continue o f v).0
  continue_same (ok a) f h = h a
  continue_same (err e) f h = refl
  continue_same panicked f h = refl

  resolve_recipient_id_same :
      (p : OpsgenieEscalationRecipient) (namespace : String) {w w' : W}
      → SameReferences r w w'
      → (resolve_recipient_id r p namespace w').0 ≡ (resolve_recipient_id r p namespace w).0
  unfolding resolve_recipient_id
  resolve_recipient_id_same p namespace s = grind (arith, s.same_team, s.same_schedule)

  pub map_escalation_rules_same :
      (namespace : String) (rules : List OpsgenieEscalationRule) {w w' : W}
      → SameReferences r w w'
      → (map_escalation_rules r namespace rules w').0 ≡ (map_escalation_rules r namespace rules w).0
  unfolding map_escalation_rules
  map_escalation_rules_same namespace [] s = refl
  map_escalation_rules_same namespace (rule ∷ rules) {w} {w'} s =
      rw
        (
          resolve_recipient_id_same rule.recipient namespace s,
          resolve_recipient_id-quiet rule.recipient namespace w,
          resolve_recipient_id-quiet rule.recipient namespace w',
        )
        (continue_same (resolve_recipient_id r rule.recipient namespace w).0 _ λ who.
          rw (map_escalation_rules_same namespace rules s)
            (continue_same (map_escalation_rules r namespace rules w).0 _ λ mapped. refl))

  pub map_escalation_rules-IsSent :
      (namespace : String) (rules : List OpsgenieEscalationRule) (w w' : W) (out : List Rule)
      → map_escalation_rules r namespace rules w ≡ (ok out, w')
      → IsSent rules out
  unfolding map_escalation_rules
  map_escalation_rules-IsSent namespace [] w w' out e =
      let empty : [] ≡ out = ground arith in subst (IsSent []) empty tt
  map_escalation_rules-IsSent namespace (rule ∷ rules) w w' out e =
      on_ok (resolve_recipient_id r rule.recipient namespace) _ e λ who v e₁ h.
        on_ok (map_escalation_rules r namespace rules) _ h λ mapped v₂ e₂ last.
          let built : build_rule rule who ∷ mapped ≡ out = ground arith in
          subst (IsSent (rule ∷ rules)) built
            ((who, refl), map_escalation_rules-IsSent namespace rules v v₂ mapped e₂)

  -- The resource is there, its references are resolved, and the escalation of its id needs no update.
  pub record IsSettled (cr : OpsgenieEscalation) (x : Escalation) (w : W) : Type 0 where
    pub team_id : String
    pub rules : List Rule
    pub stored : resource_at r cr.metadata w ≡ done cr
    pub owned : (resolve_team_id r cr w).0 ≡ ok team_id
    pub mapped : (map_escalation_rules r cr.metadata.namespace cr.spec.rules w).0 ≡ ok rules
    pub known : cr.status.escalation_id ≢ ""
    pub found : escalation_at r (by_id cr.status.escalation_id) w ≡ done x
    pub current : is_update_required cr x ≡ false

  settle_idle :
      (cr : OpsgenieEscalation) (x : Escalation) (w : W) (team_id : String) (rules : List Rule)
      → cr.status.escalation_id ≢ ""
      → escalation_at r (by_id cr.status.escalation_id) w ≡ done x
      → is_update_required cr x ≡ false
      → (find_existing r (resolve cr team_id) >>= λ (c, existing). write r c existing team_id rules)
          w
        ≡ (ok five_minutes, w)
  unfolding find_existing write update_existing is_update_required
  settle_idle cr x w team_id rules known found current =
      let same = laws.found_id cr.status.escalation_id w found in
      let quiet = laws.get_escalation_quiet (by_id cr.status.escalation_id) w in ground arith

  pub reconcile_settled :
      (cr : OpsgenieEscalation) (x : Escalation) (w : W)
      → IsSettled cr x w
      → reconcile r cr.metadata w ≡ (ok five_minutes, w)
  unfolding reconcile
  reconcile_settled cr x w h =
      rw
        (
          h.stored,
          laws.get_quiet cr.metadata w,
          h.owned,
          resolve_team_id-quiet cr w,
          h.mapped,
          map_escalation_rules-quiet cr.metadata.namespace cr.spec.rules w,
        )
        (settle_idle cr x w h.team_id h.rules h.known h.found h.current)
