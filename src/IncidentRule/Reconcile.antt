-- ===== src/IncidentRule/Reconcile.antt =====
-- `OpsgenieIncidentRuleReconciler`, `resolveServiceID` and `Reconcile`.
use opsgenie_operator.Prelude.{
  String, List, [], ◌∷◌, Option, none, some, ◌==◌, string_eq, if◌then◌else◌,
}
use opsgenie_operator.Exec.{
  Call, Result, five_minutes, Proc, pure, raise, attempt, call, ◌>>=◌, ◌>>◌, ignore_not_found,
  Reply, done, failed, service_ref_unspecified,
}
use opsgenie_operator.Kube.{Kube, Time, ObjectKey, LocalObjectReference}
use opsgenie_operator.Api.Service.{OpsgenieService}
use opsgenie_operator.Api.IncidentRule.{OpsgenieIncidentRule}
use opsgenie_operator.Opsgenie.Service as Sdk
use opsgenie_operator.Opsgenie.Service.{IncidentRuleResult}
use opsgenie_operator.IncidentRule.Requests.{map_create_incident_rule, map_update_incident_rule}

pub record OpsgenieIncidentRuleReconciler (W : Type 0) : Type 0 where
  pub client : Kube W OpsgenieIncidentRule
  pub service_client : Kube W OpsgenieService
  pub opsgenie_client : Sdk.Client W
  pub now : Call W Time

abbrev pub stamp : OpsgenieIncidentRule → Time → OpsgenieIncidentRule
stamp cr now = record cr { status = record (cr.status) { last_synced_time = now } }

abbrev pub activate : OpsgenieIncidentRule → String → Time → OpsgenieIncidentRule
activate cr id now = record cr {
  status = record { rule_id = id; status = "Active"; last_synced_time = now };
}

-- The loop over the existing rules: the first one that has the id of the status.
unfoldable pub find_rule : String → List IncidentRuleResult → Option IncidentRuleResult
find_rule rule_id [] = none
find_rule rule_id (rule ∷ rules) = if rule.id == rule_id then some rule else find_rule rule_id rules

module _ {W : Type 0} (r : OpsgenieIncidentRuleReconciler W) where
  open r use {client, service_client, opsgenie_client, now}

  abbrev pub write_status : OpsgenieIncidentRule → Proc W OpsgenieIncidentRule
  write_status cr = call (client.update_status cr)

  unfoldable pub service_of_ref : String → Option LocalObjectReference → Proc W String
  service_of_ref namespace none = raise service_ref_unspecified
  service_of_ref namespace (some ref) = do
    service ← call (service_client.get (record { namespace = namespace; name = ref.name }))
    pure service.status.service_id

  unfoldable pub resolve_service_id : OpsgenieIncidentRule → Proc W String
  unfolding service_of_ref
  resolve_service_id cr = service_of_ref cr.metadata.namespace cr.spec.service_ref

  -- `existingRule != nil`, or a new rule
  unfoldable pub write_rule :
      OpsgenieIncidentRule → String → Option IncidentRuleResult → Proc W Result
  write_rule cr service_id (some existing) = do
    call (
        opsgenie_client.update_incident_rule
          (map_update_incident_rule cr service_id cr.status.rule_id))
    t ← attempt now
    write_status (stamp cr t)
    pure five_minutes
  write_rule cr service_id none = do
    created ← call (opsgenie_client.create_incident_rule (map_create_incident_rule cr service_id))
    t ← attempt now
    write_status (activate cr created.id t)
    pure five_minutes

  unfoldable pub after_fetch : Reply OpsgenieIncidentRule → Proc W Result
  unfolding write_rule
  after_fetch (failed e) = ignore_not_found e
  after_fetch (done cr) = do
    service_id ← resolve_service_id cr
    rules ← call (opsgenie_client.get_incident_rules (record { service_id = service_id }))
    write_rule cr service_id (find_rule cr.status.rule_id rules)

  unfoldable pub reconcile : ObjectKey → Proc W Result
  unfolding after_fetch
  reconcile req = do found ← attempt (client.get req); after_fetch found
