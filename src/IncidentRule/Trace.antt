-- ===== src/IncidentRule/Trace.antt =====
-- Which rule is found, what is sent for it, and which writes a reconciliation makes.
use opsgenie_operator.Prelude.{
  String, ◌≡◌, ◌≢◌, ◌↔◌, refl, inl, inr, List, Option, none, some, [], ◌∷◌, All, Pointwise, ◌==◌,
  string_eq, arith, Bool-cases,
}
use opsgenie_operator.Exec.{done, Error, ok, err}
use opsgenie_operator.Exec.Trace.{Traced, quiet, noted, first}
use opsgenie_operator.Kube.{ObjectKey}
use opsgenie_operator.Api.IncidentRule.{OpsgenieIncidentRule, OpsgenieIncidentCondition}
use opsgenie_operator.Opsgenie.Og.{Condition}
use opsgenie_operator.Opsgenie.Service.{
  CreateIncidentRuleRequest, UpdateIncidentRuleRequest, IncidentRuleResult,
}
use opsgenie_operator.IncidentRule.Requests.{
  map_conditions, map_create_incident_rule, map_update_incident_rule,
}
use opsgenie_operator.IncidentRule.Reconcile.{
  OpsgenieIncidentRuleReconciler, reconcile, resolve_service_id, find_rule, write_rule,
}

pub data Write : Type 0 where
  created : CreateIncidentRuleRequest → Write
  updated : UpdateIncidentRuleRequest → Write
  status_written : OpsgenieIncidentRule → Write

abbrev pub IsNoCreate : Write → Type 0
IsNoCreate (created q) = ⊥
IsNoCreate _ = Unit

abbrev pub IsNoUpdate : Write → Type 0
IsNoUpdate (updated q) = ⊥
IsNoUpdate _ = Unit

abbrev pub traced :
    {W : Type 0}
    → OpsgenieIncidentRuleReconciler W
    → OpsgenieIncidentRuleReconciler (Traced W Write)
traced r = record {
  client = record {
    get = λ k. quiet (r.client.get k);
    update_status = λ c. noted (status_written c) (r.client.update_status c);
  };
  service_client = record {
    get = λ k. quiet (r.service_client.get k);
    update_status = λ c. quiet (r.service_client.update_status c);
  };
  opsgenie_client = record {
    get = λ q. quiet (r.opsgenie_client.get q);
    create = λ q. quiet (r.opsgenie_client.create q);
    update = λ q. quiet (r.opsgenie_client.update q);
    get_incident_rules = λ q. quiet (r.opsgenie_client.get_incident_rules q);
    create_incident_rule = λ q. noted (created q) (r.opsgenie_client.create_incident_rule q);
    update_incident_rule = λ q. noted (updated q) (r.opsgenie_client.update_incident_rule q);
  };
  now = quiet r.now;
}

-- No rule is found exactly if no rule has the id.
pub find_rule-eq-none :
    (rule_id : String) (rules : List IncidentRuleResult)
    → (find_rule rule_id rules ≡ none) ↔ All (λ rule. rule.id ≢ rule_id) rules
unfolding find_rule
find_rule-eq-none rule_id [] = (λ h. tt, λ h. refl)
find_rule-eq-none rule_id (rule ∷ rules) =
    let (to, back) = find_rule-eq-none rule_id rules in
    elim (Bool-cases (rule.id == rule_id)) [
      | inl same ↦ rw same (λ h. absurd (ground arith), λ h. absurd (h.0 (ground arith)))
      | inr other ↦ rw other (λ h. (ground arith, to h), λ h. back h.1)
    ]

-- What the two requests say about the rule: a condition for each of the resource's, in order.
abbrev pub ConditionKept : OpsgenieIncidentCondition → Condition → Type 0
ConditionKept c d =
    (d.field ≡ c.field) × (d.operation ≡ c.operation) × (d.expected_value ≡ c.expected_value)

map_conditions-Pointwise :
    (cs : List OpsgenieIncidentCondition) → Pointwise ConditionKept cs (map_conditions cs)
unfolding map_conditions
map_conditions-Pointwise [] = tt
map_conditions-Pointwise (c ∷ cs) = ((refl, refl, refl), map_conditions-Pointwise cs)

-- A creation and an update of a rule send the same content: the conditions of the resource, in
-- order, the match type, and the incident properties; the update also names the rule.
pub map_requests_agree :
    (cr : OpsgenieIncidentRule) (service_id rule_id : String)
    → let q = map_create_incident_rule cr service_id in
      let u = map_update_incident_rule cr service_id rule_id in
      Pointwise ConditionKept cr.spec.conditions q.conditions
      × (q.service_id ≡ service_id)
      × (u ≡ record {
        service_id = q.service_id;
        incident_rule_id = rule_id;
        conditions = q.conditions;
        condition_match_type = q.condition_match_type;
        incident_properties = q.incident_properties;
      })
unfolding map_create_incident_rule map_update_incident_rule
map_requests_agree cr service_id rule_id = (map_conditions-Pointwise cr.spec.conditions, refl, refl)

module _ {W : Type 0} (r : OpsgenieIncidentRuleReconciler W) where
  write_rule-writes :
      (cr : OpsgenieIncidentRule) (service_id : String) (found : Option IncidentRuleResult) (w : W)
      → let log = (write_rule (traced r) cr service_id found (w, [])).1.1 in
        (found ≡ none
          → (first log ≡ some (created (map_create_incident_rule cr service_id)))
            × All IsNoUpdate log)
        × (found ≢ none
            → (first log
                ≡ some (updated (map_update_incident_rule cr service_id cr.status.rule_id)))
              × All IsNoCreate log)
  unfolding write_rule
  write_rule-writes cr service_id none w = ((λ h. ground arith), λ h. absurd (h refl))
  write_rule-writes cr service_id (some rule) w = ((λ h. cc), λ h. ground arith)

  resolve_service_id-traced :
      (cr : OpsgenieIncidentRule) (w : W) (log : List Write)
      → resolve_service_id (traced r) cr (w, log)
        ≡ ((resolve_service_id r cr w).0, ((resolve_service_id r cr w).1, log))
  unfolding resolve_service_id
  resolve_service_id-traced cr w log = ground arith

  -- Once the service is resolved and its rules are fetched: if one of them has the id of the
  -- status, then the first write is an update of that rule and none is created, and otherwise the
  -- first write is the creation of a rule and none is updated.
  pub reconcile_rule-writes :
      (req : ObjectKey) (cr : OpsgenieIncidentRule) (w : W) (service_id : String)
      (rules : List IncidentRuleResult)
      → (r.client.get req w).0 ≡ done cr
      → let asked = resolve_service_id r cr (r.client.get req w).1 in
        asked.0 ≡ ok service_id
        → (r.opsgenie_client.get_incident_rules (record { service_id = service_id }) asked.1).0
          ≡ done rules
        → let log = (reconcile (traced r) req (w, [])).1.1 in
          (All (λ rule. rule.id ≢ cr.status.rule_id) rules
            → (first log ≡ some (created (map_create_incident_rule cr service_id)))
              × All IsNoUpdate log)
          × ((¬ All (λ rule. rule.id ≢ cr.status.rule_id) rules)
              → (first log
                  ≡ some (updated (map_update_incident_rule cr service_id cr.status.rule_id)))
                × All IsNoCreate log)
  unfolding reconcile
  reconcile_rule-writes req cr w service_id rules h e listed =
      let (on_none, on_some) =
        write_rule-writes cr service_id (find_rule cr.status.rule_id rules) _ in
      let (sound, complete) = find_rule-eq-none cr.status.rule_id rules in
      rw (h, resolve_service_id-traced cr (r.client.get req w).1 [], e, listed)
        (λ a. on_none (complete a), λ n. on_some (λ x. n (sound x)))

  -- If the service is not resolved, the reconciliation returns that error and makes no further call.
  reconcile_rule_unresolved :
      (req : ObjectKey) (cr : OpsgenieIncidentRule) (w : W) {e : Error}
      → (r.client.get req w).0 ≡ done cr
      → let asked = resolve_service_id r cr (r.client.get req w).1 in
        asked.0 ≡ err e → reconcile r req w ≡ (err e, asked.1)
  unfolding reconcile
  reconcile_rule_unresolved req cr w h e = rw (h, e)
