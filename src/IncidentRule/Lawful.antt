-- ===== src/IncidentRule/Lawful.antt =====
-- What the incident rule controller relies on in Kubernetes and in Opsgenie's incident rule API: while
-- nobody else writes, a read has no effect and answers the same again, a status update stores what
-- it is given, a rule that is created is listed for its service, and an update removes no rule.
use opsgenie_operator.Prelude.{String, ◌≡◌, ◌≢◌, List, All}
use opsgenie_operator.Exec.{Reply, done}
use opsgenie_operator.Kube.{ObjectKey}
use opsgenie_operator.Api.Service.{OpsgenieService}
use opsgenie_operator.Api.IncidentRule.{OpsgenieIncidentRule}
use opsgenie_operator.Opsgenie.Service.{
  IncidentRuleResult, CreateResult, CreateIncidentRuleRequest, UpdateIncidentRuleRequest,
}
use opsgenie_operator.IncidentRule.Reconcile.{OpsgenieIncidentRuleReconciler}

-- One of the rules has the id.
abbrev pub Lists : String → List IncidentRuleResult → Type 0
Lists id rules = ¬ All (λ rule. rule.id ≢ id) rules

module _ {W : Type 0} (r : OpsgenieIncidentRuleReconciler W) where
  open r use {client, service_client, opsgenie_client, now}

  -- What the three reads answer in a world.
  abbrev pub resource_at : ObjectKey → W → Reply OpsgenieIncidentRule
  resource_at k w = (client.get k w).0

  abbrev pub service_at : ObjectKey → W → Reply OpsgenieService
  service_at k w = (service_client.get k w).0

  abbrev pub rules_at : String → W → Reply (List IncidentRuleResult)
  rules_at id w = (opsgenie_client.get_incident_rules (record { service_id = id }) w).0

  -- The same services and rules are there.
  pub record SameServices (w w' : W) : Type 0 where
    pub same_service : (k : ObjectKey) → service_at k w' ≡ service_at k w
    pub same_rules : (id : String) → rules_at id w' ≡ rules_at id w

  pub record IsLawful : Type 0 where
    pub get_quiet : (k : ObjectKey) (w : W) → (client.get k w).1 ≡ w
    pub get_service_quiet : (k : ObjectKey) (w : W) → (service_client.get k w).1 ≡ w
    pub rules_quiet :
        (id : String) (w : W)
        → (opsgenie_client.get_incident_rules (record { service_id = id }) w).1 ≡ w
    pub now_kept : (w : W) → SameServices w (now w).1
    pub status_stored :
        (c : OpsgenieIncidentRule) {c' : OpsgenieIncidentRule} {w w' : W}
        → client.update_status c w ≡ (done c', w')
        → resource_at c.metadata w' ≡ done c
    pub status_kept :
        (c : OpsgenieIncidentRule) {c' : OpsgenieIncidentRule} {w w' : W}
        → client.update_status c w ≡ (done c', w')
        → SameServices w w'
    pub create_service :
        (q : CreateIncidentRuleRequest) {a : CreateResult} {w w' : W}
        → opsgenie_client.create_incident_rule q w ≡ (done a, w')
        → (k : ObjectKey) → service_at k w' ≡ service_at k w
    pub create_listed :
        (q : CreateIncidentRuleRequest) {a : CreateResult} {w w' : W}
        → opsgenie_client.create_incident_rule q w ≡ (done a, w')
        → (rules : List IncidentRuleResult) × (rules_at q.service_id w' ≡ done rules)
          × Lists a.id rules
    pub update_kept :
        (q : UpdateIncidentRuleRequest) {w w' : W}
        → opsgenie_client.update_incident_rule q w ≡ (done tt, w')
        → SameServices w w'
