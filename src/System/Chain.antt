-- ===== src/System/Chain.antt =====
-- Controllers that follow each other: what one leaves in a status, the next one reads.
use opsgenie_operator.Prelude.{◌≡◌, ◌≢◌, refl, ap, ◌∙◌, [], some}
use opsgenie_operator.Exec.{done, ok}
use opsgenie_operator.Exec.Trace.{first}
use opsgenie_operator.Kube.{LocalObjectReference}
use opsgenie_operator.Api.Team.{OpsgenieTeam}
use opsgenie_operator.Api.Service.{OpsgenieService}
use opsgenie_operator.Team.Reconcile as Team
use opsgenie_operator.Team.Lawful.{IsLawful, resource_at}
use opsgenie_operator.Team.Updates as TeamUpdates
use opsgenie_operator.Team.Convergence.{reconcile-Reached}
use opsgenie_operator.Service.Reconcile as Service
use opsgenie_operator.Service.Trace.{created, traced}
use opsgenie_operator.Prelude.{String, List, All, false}
use opsgenie_operator.Exec.{five_minutes}
use opsgenie_operator.Api.IncidentRule.{OpsgenieIncidentRule}
use opsgenie_operator.Opsgenie.Service as Sdk
use opsgenie_operator.Opsgenie.Service.{IncidentRuleResult}
use opsgenie_operator.Service.Tags.{is_update_required}
use opsgenie_operator.Service.Settled.{IsExpressible}
use opsgenie_operator.Service.Lawful as ServiceLawful
use opsgenie_operator.Service.Convergence as ServiceConvergence
use opsgenie_operator.IncidentRule.Requests.{map_create_incident_rule}
use opsgenie_operator.IncidentRule.Reconcile as Rule
use opsgenie_operator.IncidentRule.Trace as RuleTrace
use opsgenie_operator.Startup.Main.{incident_rule_reconciler}
use opsgenie_operator.Startup.Manager.{Manager}
use opsgenie_operator.Startup.Main.{Process, Clients, service_reconciler}

-- A service without an id of its own, whose spec gives no `teamId`, and whose `teamRef` names the team.
pub record IsOwnedBy (team : OpsgenieTeam) (service : OpsgenieService) : Type 0 where
  pub new : service.status.service_id ≡ ""
  pub direct : service.spec.team_id ≡ ""
  pub ref : LocalObjectReference
  pub by_ref : service.spec.team_ref ≡ some ref
  pub named : team.metadata ≡ record { namespace = service.metadata.namespace; name = ref.name }

-- An incident rule whose `serviceRef` names the service.
pub record IsOfService (service : OpsgenieService) (rule : OpsgenieIncidentRule) : Type 0 where
  pub ref : LocalObjectReference
  pub by_ref : rule.spec.service_ref ≡ some ref
  pub named : service.metadata ≡ record { namespace = rule.metadata.namespace; name = ref.name }

module _ {W : Type 0} (p : Process W) (c : Clients W) (mgr : Manager W) where
  service_resolved :
      (service service' : OpsgenieService) (rule : OpsgenieIncidentRule) (w : W)
      → IsOfService service rule
      → mgr.service_client.get service.metadata w ≡ (done service', w)
      → Rule.resolve_service_id (incident_rule_reconciler p c mgr) rule w
        ≡ (ok service'.status.service_id, w)
  unfolding Rule.resolve_service_id
  service_resolved service service' rule w o stored =
      let read : mgr.service_client.get
            (record { namespace = rule.metadata.namespace; name = o.ref.name }) w
          ≡ (done service', w) =
        rw (← o.named) stored in
      rw (o.by_ref, read) refl

  -- Let the service controller's world be lawful. If a reconciliation of a service whose fields can all
  -- be sent ends without an error and asks to be called again, and an incident rule whose
  -- `serviceRef` names that service's resource is read next, and Opsgenie lists, for every service,
  -- incident rules none of which has the id in the rule's status, then the reconciliation of the
  -- incident rule first creates a rule as its resource says, with an id of a service that is not
  -- empty, and under which Opsgenie now finds a service that needs no update.
  pub rule_after_service :
      (laws : ServiceLawful.IsLawful (service_reconciler p c mgr))
      → (service : OpsgenieService) (rule : OpsgenieIncidentRule) (w : W) {w' : W}
      → (rules : String → List IncidentRuleResult) → IsExpressible service
      → ServiceLawful.resource_at (service_reconciler p c mgr) service.metadata w ≡ done service
      → Service.reconcile (service_reconciler p c mgr) service.metadata w ≡ (ok five_minutes, w')
      → mgr.incident_rule_client.get rule.metadata w' ≡ (done rule, w')
      → ((id : String)
          → (c.service.get_incident_rules (record { service_id = id }) w').0 ≡ done (rules id))
      → ((id : String) → All (λ x. x.id ≢ rule.status.rule_id) (rules id))
      → IsOfService service rule
      → let log =
          (Rule.reconcile
            (RuleTrace.traced (incident_rule_reconciler p c mgr))
            rule.metadata
            (w', [])).1.1 in
        (id : String) × (s : Sdk.Service) × (ServiceLawful.service_at
            (service_reconciler p c mgr)
            id
            w'
          ≡ done s)
        × (is_update_required service s ≡ false)
        × (id ≢ "")
        × (first log ≡ some (RuleTrace.created (map_create_incident_rule rule id)))
  unfolding is_update_required
  rule_after_service laws service rule w {w'} rules x stored e read listed new o =
      let (team_id, reached) =
        ServiceConvergence.reconcile-Reached (service_reconciler p c mgr) laws service w x stored
          e in
      let settled = reached.settled in
      let kept = reached.keeps.metadata_kept in
      let spec = reached.keeps.spec_kept in
      let id = reached.resource.status.service_id in
      let there : (mgr.service_client.get service.metadata w').0 ≡ done reached.resource =
        rw kept at settled.stored in
      let held : mgr.service_client.get service.metadata w' ≡ (done reached.resource, w') =
        ap (λ a. (a, (mgr.service_client.get service.metadata w').1)) there
        ∙ ap (λ v. (done reached.resource, v)) (laws.get_quiet service.metadata w') in
      let asked : Rule.resolve_service_id (incident_rule_reconciler p c mgr) rule
            (mgr.incident_rule_client.get rule.metadata w').1
          ≡ (ok id, w') =
        rw read (service_resolved service reached.resource rule w' o held) in
      let (creates, updates) =
        RuleTrace.reconcile_rule-writes (incident_rule_reconciler p c mgr) rule.metadata rule w' id
          (rules id) (ap (λ r. r.0) read) (ap (λ r. r.0) asked) (rw asked (listed id)) in
      (
        id,
        reached.service,
        settled.found,
        rw spec at settled.current,
        settled.known,
        (creates (new id)).0,
      )
