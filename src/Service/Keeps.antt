-- ===== src/Service/Keeps.antt =====
-- A reconciliation of a service writes no status without an id.
use opsgenie_operator.Prelude.{String, ◌≢◌, string_eq, arith, List, All}
use opsgenie_operator.Exec.{Outcome, ok, err, panicked}
use opsgenie_operator.Exec.Keeps.{Keeps, Answers, IfDone}
use opsgenie_operator.Kube.{ObjectKey}
use opsgenie_operator.Kube.Keeps.{KubeKeeps}
use opsgenie_operator.Api.Service.{OpsgenieService}
use opsgenie_operator.Opsgenie.Service as Sdk
use opsgenie_operator.Opsgenie.Service.{
  GetRequest, CreateRequest, CreateResult, UpdateRequest, GetIncidentRulesRequest,
  IncidentRuleResult, CreateIncidentRuleRequest, UpdateIncidentRuleRequest,
}
use opsgenie_operator.Service.Reconcile.{
  OpsgenieServiceReconciler, reconcile, after_resolve, resolve_team_id, update_existing,
  create_missing,
}

abbrev pub HasId : OpsgenieService → Type 0
HasId cr = cr.status.service_id ≢ ""

abbrev pub HasNewId : CreateResult → Type 0
HasNewId a = a.id ≢ ""

abbrev pub HaveIds : List IncidentRuleResult → Type 0
HaveIds = All (λ rule. rule.id ≢ "")

-- The calls of Opsgenie's service API keep the invariant, and a creation answers an id. So do the
-- calls for incident rules, and the rules that are listed have ids.
pub record SdkKeeps {W : Type 0} (I : W → Type 0) (sdk : Sdk.Client W) : Type 0 where
  pub get : (q : GetRequest) → Keeps I (sdk.get q)
  pub create : (q : CreateRequest) → Keeps I (sdk.create q)
  pub create_answer : (q : CreateRequest) → Answers (IfDone HasNewId) (sdk.create q)
  pub update : (q : UpdateRequest) → Keeps I (sdk.update q)
  pub rules : (q : GetIncidentRulesRequest) → Keeps I (sdk.get_incident_rules q)
  pub rules_answer :
      (q : GetIncidentRulesRequest) → Answers (IfDone HaveIds) (sdk.get_incident_rules q)
  pub create_rule : (q : CreateIncidentRuleRequest) → Keeps I (sdk.create_incident_rule q)
  pub create_rule_answer :
      (q : CreateIncidentRuleRequest) → Answers (IfDone HasNewId) (sdk.create_incident_rule q)
  pub update_rule : (q : UpdateIncidentRuleRequest) → Keeps I (sdk.update_incident_rule q)

module _ {W : Type 0} (I : W → Type 0) (r : OpsgenieServiceReconciler W)
    (kube : KubeKeeps I HasId r.client)
    (team_reads : (k : ObjectKey) → Keeps I (r.team_client.get k))
    (sdk : SdkKeeps I r.opsgenie_client) (clock : Keeps I r.now) where
  resolve_team_id-Keeps : (cr : OpsgenieService) → Keeps I (resolve_team_id r cr)
  unfolding resolve_team_id
  resolve_team_id-Keeps cr w i = grind (arith, team_reads)

  update_existing-Keeps : (cr : OpsgenieService) → HasId cr → Keeps I (update_existing r cr)
  unfolding update_existing
  update_existing-Keeps cr known w i = grind (arith, clock, kube.update_status, sdk.get, sdk.update)

  create_missing-Keeps :
      (cr : OpsgenieService) (team_id : String) → Keeps I (create_missing r cr team_id)
  unfolding create_missing
  create_missing-Keeps cr team_id w i =
      grind (arith, clock, kube.update_status, sdk.create, sdk.create_answer)

  after_resolve-Keeps : (cr : OpsgenieService) (o : Outcome String) → Keeps I (after_resolve r cr o)
  unfolding after_resolve
  after_resolve-Keeps cr (ok id) w i = grind (arith, update_existing-Keeps, create_missing-Keeps)
  after_resolve-Keeps cr (err e) w i = i
  after_resolve-Keeps cr panicked w i = i

  -- Let `I` be kept by every call that a reconciliation of a service makes, by a status update only
  -- if the status that is written has an id. Then every reconciliation keeps `I`.
  pub reconcile_service-Keeps : (req : ObjectKey) → Keeps I (reconcile r req)
  unfolding reconcile
  reconcile_service-Keeps req w i =
      grind (arith, kube.get, resolve_team_id-Keeps, after_resolve-Keeps)
