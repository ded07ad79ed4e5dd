-- ===== src/Escalation/Keeps.antt =====
-- A reconciliation of an escalation writes no status without an id.
use opsgenie_operator.Prelude.{String, ◌≢◌, string_eq, arith, List, [], ◌∷◌}
use opsgenie_operator.Exec.{◌>>=◌}
use opsgenie_operator.Exec.Keeps.{Keeps, Answers, IfDone}
use opsgenie_operator.Kube.{ObjectKey}
use opsgenie_operator.Kube.Keeps.{KubeKeeps}
use opsgenie_operator.Api.Escalation.{
  OpsgenieEscalation, OpsgenieEscalationRule, OpsgenieEscalationRecipient,
}
use opsgenie_operator.Opsgenie.Escalation as Sdk
use opsgenie_operator.Opsgenie.Escalation.{
  GetRequest, CreateRequest, CreateResult, UpdateRequest, Escalation, Rule,
}
use opsgenie_operator.Escalation.Reconciler.{Event, OpsgenieEscalationReconciler}
use opsgenie_operator.Escalation.Rules.{resolve_team_id, resolve_recipient_id, map_escalation_rules}
use opsgenie_operator.Escalation.Reconcile.{reconcile, find_existing, write}

abbrev pub HasId : OpsgenieEscalation → Type 0
HasId cr = cr.status.escalation_id ≢ ""

abbrev pub HasNewId : CreateResult → Type 0
HasNewId a = a.id ≢ ""

-- The calls of Opsgenie's escalation API keep the invariant, and a creation answers an id.
pub record SdkKeeps {W : Type 0} (I : W → Type 0) (sdk : Sdk.Client W) : Type 0 where
  pub get : (q : GetRequest) → Keeps I (sdk.get q)
  pub create : (q : CreateRequest) → Keeps I (sdk.create q)
  pub create_answer : (q : CreateRequest) → Answers (IfDone HasNewId) (sdk.create q)
  pub update : (q : UpdateRequest) → Keeps I (sdk.update q)

module _ {W : Type 0} (I : W → Type 0) (r : OpsgenieEscalationReconciler W)
    (kube : KubeKeeps I HasId r.client)
    (team_reads : (k : ObjectKey) → Keeps I (r.team_client.get k))
    (schedule_reads : (k : ObjectKey) → Keeps I (r.schedule_client.get k))
    (sdk : SdkKeeps I r.opsgenie_client) (events : (e : Event) → Keeps I (r.record_event e))
    (clock : Keeps I r.now) where
  resolve_team_id-Keeps : (cr : OpsgenieEscalation) → Keeps I (resolve_team_id r cr)
  unfolding resolve_team_id
  resolve_team_id-Keeps cr w i = grind (arith, team_reads)

  resolve_recipient_id-Keeps :
      (p : OpsgenieEscalationRecipient) (namespace : String)
      → Keeps I (resolve_recipient_id r p namespace)
  unfolding resolve_recipient_id
  resolve_recipient_id-Keeps p namespace w i = grind (arith, team_reads, schedule_reads)

  map_escalation_rules-Keeps :
      (namespace : String) (rules : List OpsgenieEscalationRule)
      → Keeps I (map_escalation_rules r namespace rules)
  unfolding map_escalation_rules
  map_escalation_rules-Keeps namespace [] w i = i
  map_escalation_rules-Keeps namespace (rule ∷ rules) w i = grind (
    arith,
    resolve_recipient_id-Keeps rule.recipient namespace,
    map_escalation_rules-Keeps namespace rules,
  )

  -- The lookup, and what is written then.
  settle-Keeps :
      (cr : OpsgenieEscalation) (team_id : String) (rules : List Rule)
      → Keeps I (find_existing r cr >>= λ (c, existing). write r c existing team_id rules)
  unfolding find_existing write
  settle-Keeps cr team_id rules w i = grind (
    arith, clock, events, kube.update_status, kube.update_answer, sdk.get, sdk.create,
    sdk.create_answer, sdk.update,
  )

  -- Let `I` be kept by every call that a reconciliation of an escalation makes, by a status update
  -- only if the status that is written has an id. Then every reconciliation keeps `I`.
  pub reconcile_escalation-Keeps : (req : ObjectKey) → Keeps I (reconcile r req)
  unfolding reconcile
  reconcile_escalation-Keeps req w i =
      grind (arith, kube.get, resolve_team_id-Keeps, map_escalation_rules-Keeps, settle-Keeps)
