-- ===== src/System/Progress.antt =====
-- Reconciliations that succeed.
use opsgenie_operator.Prelude.{
  String, ◌≡◌, ◌≢◌, refl, List, All, arith, Bool, if◌then◌else◌, inl, inr, true, false, string_eq,
  ◌!=◌, Bool-cases,
}
use opsgenie_operator.Exec.{
  Reply, done, failed, Outcome, ok, err, panicked, Result, five_minutes, one_hour, pure, call, lift,
  ◌>>=◌,
}
use opsgenie_operator.Exec.Keeps.{Answers, IsDone}
use opsgenie_operator.Kube.{Kube, ObjectKey}
use opsgenie_operator.Api.Service.{OpsgenieService}
use opsgenie_operator.Api.Escalation.{OpsgenieEscalation}
use opsgenie_operator.Api.IncidentRule.{OpsgenieIncidentRule}
use opsgenie_operator.Opsgenie.Service as ServiceSdk
use opsgenie_operator.Opsgenie.Escalation as EscalationSdk
use opsgenie_operator.Opsgenie.Escalation.{Rule}
use opsgenie_operator.Service.Reconcile as Service
use opsgenie_operator.Escalation.Reconcile as Escalation
use opsgenie_operator.Escalation.Reconciler.{OpsgenieEscalationReconciler}
use opsgenie_operator.Escalation.Rules.{resolve_team_id, map_escalation_rules}
use opsgenie_operator.IncidentRule.Reconcile as IncidentRule
use opsgenie_operator.Schedule.Reconcile as Schedule
use opsgenie_operator.Schedule.Compare.{is_update_required}
use opsgenie_operator.Schedule.Rotations.{convert_rotations}
use opsgenie_operator.Schedule.RotationLaws.{convert_rotations-eq-ok}
use opsgenie_operator.Schedule.CompareLaws.{HasStart}
use opsgenie_operator.Schedule.Panics.{converted-HasStart, is_update_required_defined}
use opsgenie_operator.Opsgenie.Og.{Rotation}
use opsgenie_operator.Opsgenie.Schedule as ScheduleSdk
use opsgenie_operator.Api.Schedule.{OpsgenieSchedule}

-- Status updates succeed.
abbrev pub IsKept : {W Object : Type 0} → Kube W Object → Type 0
IsKept {W} {Object} kube = (c : Object) → Answers IsDone (kube.update_status c)

-- Calls of the service API, and of its incident rules, succeed.
pub record IsServing {W : Type 0} (sdk : ServiceSdk.Client W) : Type 0 where
  pub get : (q : ServiceSdk.GetRequest) → Answers IsDone (sdk.get q)
  pub create : (q : ServiceSdk.CreateRequest) → Answers IsDone (sdk.create q)
  pub update : (q : ServiceSdk.UpdateRequest) → Answers IsDone (sdk.update q)
  pub rules : (q : ServiceSdk.GetIncidentRulesRequest) → Answers IsDone (sdk.get_incident_rules q)
  pub create_rule :
      (q : ServiceSdk.CreateIncidentRuleRequest) → Answers IsDone (sdk.create_incident_rule q)
  pub update_rule :
      (q : ServiceSdk.UpdateIncidentRuleRequest) → Answers IsDone (sdk.update_incident_rule q)

-- Lookups by id, and writes, of the escalation API succeed.
pub record IsPaging {W : Type 0} (sdk : EscalationSdk.Client W) : Type 0 where
  pub get : (id : String) → Answers IsDone (sdk.get (Escalation.by_id id))
  pub create : (q : EscalationSdk.CreateRequest) → Answers IsDone (sdk.create q)
  pub update : (q : EscalationSdk.UpdateRequest) → Answers IsDone (sdk.update q)

module _ {W : Type 0} (r : Service.OpsgenieServiceReconciler W) (kept : IsKept r.client)
    (sdk : IsServing r.opsgenie_client) where
  pub service_done :
      (req : ObjectKey) (cr : OpsgenieService) (id : String) (w : W)
      → (r.client.get req w).0 ≡ done cr
      → (Service.resolve_team_id r cr (r.client.get req w).1).0 ≡ ok id
      → (Service.reconcile r req w).0 ≡ ok five_minutes
  unfolding Service.reconcile Service.after_resolve Service.update_existing Service.create_missing
  service_done req cr id w h e = rw (h, e) (grind (arith, kept, sdk.get, sdk.create, sdk.update))

module _ {W : Type 0} (r : IncidentRule.OpsgenieIncidentRuleReconciler W) (kept : IsKept r.client)
    (sdk : IsServing r.opsgenie_client) where
  pub rule_done :
      (req : ObjectKey) (cr : OpsgenieIncidentRule) (id : String) (w : W)
      → (r.client.get req w).0 ≡ done cr
      → (IncidentRule.resolve_service_id r cr (r.client.get req w).1).0 ≡ ok id
      → (IncidentRule.reconcile r req w).0 ≡ ok five_minutes
  unfolding IncidentRule.reconcile IncidentRule.write_rule
  rule_done req cr id w h e =
      rw (h, e) (grind (arith, kept, sdk.rules, sdk.create_rule, sdk.update_rule))

module _ {W : Type 0} (r : OpsgenieEscalationReconciler W) (kept : IsKept r.client)
    (sdk : IsPaging r.opsgenie_client) where
  pub escalation_done :
      (req : ObjectKey) (cr : OpsgenieEscalation) (id : String) (rules : List Rule) (w : W)
      → (r.client.get req w).0 ≡ done cr
      → let owner = resolve_team_id r cr (r.client.get req w).1 in
        owner.0 ≡ ok id
        → (map_escalation_rules r cr.metadata.namespace cr.spec.rules owner.1).0 ≡ ok rules
        → (Escalation.reconcile r req w).0 ≡ ok five_minutes
  unfolding Escalation.reconcile Escalation.find_existing Escalation.write
  escalation_done req cr id rules w h e f =
      rw (h, e, f) (grind (arith, kept, sdk.get, sdk.create, sdk.update))

-- A schedule is answered, and each of its rotations has a start date.
abbrev pub IsDated : Reply ScheduleSdk.Schedule → Type 0
IsDated (done x) = All HasStart x.rotations
IsDated (failed e) = ⊥

-- Lookups by id, and writes, of the schedule API succeed, and the schedules that it answers to these
-- lookups are dated.
pub record IsScheduling {W : Type 0} (sdk : ScheduleSdk.Client W) : Type 0 where
  pub get : (id : String) → Answers IsDated (sdk.get (Schedule.by_id id))
  pub create : (q : ScheduleSdk.CreateRequest) → Answers IsDone (sdk.create q)
  pub update : (q : ScheduleSdk.UpdateRequest) → Answers IsDone (sdk.update q)

-- The result asks for another reconciliation.
abbrev pub IsRequeued : Outcome Result → Type 0
IsRequeued (ok res) = res.requeue_after ≢ 0
IsRequeued (err e) = ⊥
IsRequeued panicked = ⊥

module _ {W : Type 0} (r : Schedule.OpsgenieScheduleReconciler W) (kept : IsKept r.client)
    (sdk : IsScheduling r.opsgenie_client) where
  send_done :
      (b : Bool) (cr : OpsgenieSchedule) (rotations : List Rotation) (w : W)
      → ((if b then Schedule.send_update r cr rotations else pure five_minutes) w).0
        ≡ ok five_minutes
  unfolding Schedule.send_update
  send_done true cr rotations w = grind (arith, kept, sdk.update)
  send_done false cr rotations w = refl

  compare_done :
      (cr : OpsgenieSchedule) (found : Reply ScheduleSdk.Schedule) (rotations : List Rotation)
      (w : W)
      → IsDated found
      → All HasStart rotations
      → ((call (λ v. (found, v)) >>= λ existing.
            lift (is_update_required cr existing rotations) >>= λ required.
            if required then Schedule.send_update r cr rotations else pure five_minutes)
          w).0
        ≡ ok five_minutes
  compare_done cr (failed e) rotations w d h = absurd d
  compare_done cr (done x) rotations w d h =
      let (b, e) = is_update_required_defined r cr x rotations d h in
      rw e (send_done b cr rotations w)

  update_done :
      (cr : OpsgenieSchedule) (rotations : List Rotation) (w : W)
      → All HasStart rotations
      → (Schedule.update_schedule r cr rotations w).0 ≡ ok five_minutes
  unfolding Schedule.update_schedule
  update_done cr rotations w dated =
      let (found, v) = r.opsgenie_client.get (Schedule.by_id cr.status.schedule_id) w in
      compare_done cr found rotations v (sdk.get _ w) dated

  create_done :
      (cr : OpsgenieSchedule) (rotations : List Rotation) (w : W)
      → (Schedule.create_schedule r cr rotations w).0 ≡ ok one_hour
  unfolding Schedule.create_schedule Schedule.after_create Schedule.record_schedule_id
  create_done cr rotations w = grind (arith, kept, sdk.create)

  pub schedule_done :
      (req : ObjectKey) (cr : OpsgenieSchedule) (rotations : List Rotation) (w : W)
      → (r.client.get req w).0 ≡ done cr
      → convert_rotations r.parse_time cr.spec.rotations ≡ ok rotations
      → IsRequeued (Schedule.reconcile r req w).0
  unfolding Schedule.reconcile
  schedule_done req cr rotations w h e =
      let dated =
        converted-HasStart r.parse_time cr.spec.rotations rotations
          ((convert_rotations-eq-ok r.parse_time cr.spec.rotations rotations).0 e) in
      rw (h, e)
        (elim (Bool-cases (cr.status.schedule_id != "")) [
          | inl known ↦
              rw (known, update_done cr rotations (r.client.get req w).1 dated) (λ z. ground arith)
          | inr new ↦ rw (new, create_done cr rotations (r.client.get req w).1) (λ z. ground arith)
        ])
