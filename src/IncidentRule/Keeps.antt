-- ===== src/IncidentRule/Keeps.antt =====
-- A reconciliation of an incident rule writes no status without an id.
use opsgenie_operator.Prelude.{
  String, ◌≡◌, ◌≢◌, refl, ◌==◌, string_eq, arith, List, [], ◌∷◌, Option, none, some, Bool-cases,
  inl, inr,
}
use opsgenie_operator.Exec.Keeps.{Keeps}
use opsgenie_operator.Kube.{ObjectKey}
use opsgenie_operator.Kube.Keeps.{KubeKeeps}
use opsgenie_operator.Api.IncidentRule.{OpsgenieIncidentRule}
use opsgenie_operator.Opsgenie.Service.{IncidentRuleResult}
use opsgenie_operator.Service.Keeps.{HaveIds, SdkKeeps}
use opsgenie_operator.IncidentRule.Reconcile.{
  OpsgenieIncidentRuleReconciler, reconcile, resolve_service_id, find_rule, write_rule,
}

abbrev pub HasId : OpsgenieIncidentRule → Type 0
HasId cr = cr.status.rule_id ≢ ""

-- A rule that is found has the id of the status, and so the status has one.
found_id :
    (rule_id : String) (rules : List IncidentRuleResult) (rule : IncidentRuleResult)
    → HaveIds rules
    → find_rule rule_id rules ≡ some rule
    → rule_id ≢ ""
unfolding find_rule
found_id rule_id [] rule h e = cc
found_id rule_id (x ∷ rules) rule h e = elim (Bool-cases (x.id == rule_id)) [
  | inl same ↦ ground (arith, h.0)
  | inr other ↦ found_id rule_id rules rule h.1 (ground arith)
]

module _ {W : Type 0} (I : W → Type 0) (r : OpsgenieIncidentRuleReconciler W)
    (kube : KubeKeeps I HasId r.client)
    (service_reads : (k : ObjectKey) → Keeps I (r.service_client.get k))
    (sdk : SdkKeeps I r.opsgenie_client) (clock : Keeps I r.now) where
  resolve_service_id-Keeps : (cr : OpsgenieIncidentRule) → Keeps I (resolve_service_id r cr)
  unfolding resolve_service_id
  resolve_service_id-Keeps cr w i = grind (arith, service_reads)

  write_rule-Keeps :
      (cr : OpsgenieIncidentRule) (service_id : String) (found : Option IncidentRuleResult)
      → (found ≢ none → HasId cr)
      → Keeps I (write_rule r cr service_id found)
  unfolding write_rule
  write_rule-Keeps cr service_id none h w i =
      grind (arith, clock, kube.update_status, sdk.create_rule, sdk.create_rule_answer)
  write_rule-Keeps cr service_id (some rule) h w i =
      let known = h (λ e. cc) in grind (arith, clock, kube.update_status, sdk.update_rule)

  after_list-Keeps :
      (cr : OpsgenieIncidentRule) (service_id : String) (rules : List IncidentRuleResult)
      → HaveIds rules
      → Keeps I (write_rule r cr service_id (find_rule cr.status.rule_id rules))
  after_list-Keeps cr service_id rules ids =
      write_rule-Keeps cr service_id _ (known (find_rule cr.status.rule_id rules) refl)
    where
      known :
          (o : Option IncidentRuleResult)
          → find_rule cr.status.rule_id rules ≡ o
          → o ≢ none
          → HasId cr
      known none e n = absurd (n refl)
      known (some rule) e n = found_id cr.status.rule_id rules rule ids e

  -- Let `I` be kept by every call that a reconciliation of an incident rule makes, by a status
  -- update only if the status that is written has an id. Then every reconciliation keeps `I`.
  pub reconcile_rule-Keeps : (req : ObjectKey) → Keeps I (reconcile r req)
  unfolding reconcile
  reconcile_rule-Keeps req w i =
      grind
        (arith, kube.get, resolve_service_id-Keeps, sdk.rules, sdk.rules_answer, after_list-Keeps)
