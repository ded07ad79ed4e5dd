-- ===== src/System/Requeued.antt =====
-- While Kubernetes and Opsgenie answer, every controller goes on.
use opsgenie_operator.Prelude.{String, ◌≡◌, List, arith}
use opsgenie_operator.Exec.{done, ok, Outcome, five_minutes, Proc, Result}
use opsgenie_operator.Kube.{ObjectKey}
use opsgenie_operator.Api.Team.{OpsgenieTeam}
use opsgenie_operator.Api.Service.{OpsgenieService}
use opsgenie_operator.Api.Schedule.{OpsgenieSchedule}
use opsgenie_operator.Api.Escalation.{OpsgenieEscalation}
use opsgenie_operator.Api.IncidentRule.{OpsgenieIncidentRule}
use opsgenie_operator.Opsgenie.Og.{Rotation}
use opsgenie_operator.Opsgenie.Escalation.{Rule}
use opsgenie_operator.Team.Reconcile as Team
use opsgenie_operator.Team.Refinement.{IsWritable, reconcile_team-done}
use opsgenie_operator.Service.Reconcile as Service
use opsgenie_operator.Schedule.Reconcile as Schedule
use opsgenie_operator.Schedule.Rotations.{convert_rotations}
use opsgenie_operator.Escalation.Reconcile as Escalation
use opsgenie_operator.Escalation.Reconciler.{OpsgenieEscalationReconciler}
use opsgenie_operator.Escalation.Rules as Escalations
use opsgenie_operator.IncidentRule.Reconcile as IncidentRule
use opsgenie_operator.Startup.Manager.{Manager}
use opsgenie_operator.Startup.Main.{
  Process, Clients, team_reconciler, service_reconciler, schedule_reconciler, escalation_reconciler,
  incident_rule_reconciler,
}
use opsgenie_operator.System.Progress.{
  IsKept, IsServing, IsPaging, IsScheduling, IsRequeued, service_done, rule_done, escalation_done,
  schedule_done,
}

-- A reconciliation: the kind of the resource, and its name.
pub data Run : Type 0 where
  team service schedule escalation incident_rule : ObjectKey → Run

five_minutes-IsRequeued : (o : Outcome Result) → o ≡ ok five_minutes → IsRequeued o
five_minutes-IsRequeued o e = rw e (λ z. ground arith)

module _ {W : Type 0} (p : Process W) (c : Clients W) (mgr : Manager W) where
  abbrev escalations : OpsgenieEscalationReconciler W
  escalations =
      escalation_reconciler p c mgr (mgr.event_recorder_for "opsgenie-escalation-controller")

  abbrev pub run_of : Run → Proc W Result
  run_of (Run.team k) = Team.reconcile (team_reconciler p c mgr) k
  run_of (Run.service k) = Service.reconcile (service_reconciler p c mgr) k
  run_of (Run.schedule k) = Schedule.reconcile (schedule_reconciler p c mgr) k
  run_of (Run.escalation k) = Escalation.reconcile escalations k
  run_of (Run.incident_rule k) = IncidentRule.reconcile (incident_rule_reconciler p c mgr) k

  -- The resource is there, what it refers to is resolved, and its rotations are valid.
  abbrev pub IsReady : Run → W → Type 0
  IsReady (Run.team k) w = (cr : OpsgenieTeam) × ((mgr.team_client.get k w).0 ≡ done cr)
  IsReady (Run.service k) w =
      let (found, v) = mgr.service_client.get k w in
      (cr : OpsgenieService) × (id : String) × (found ≡ done cr)
      × ((Service.resolve_team_id (service_reconciler p c mgr) cr v).0 ≡ ok id)
  IsReady (Run.schedule k) w =
      (cr : OpsgenieSchedule) × (rotations : List Rotation) × ((mgr.schedule_client.get k w).0
        ≡ done cr)
      × (convert_rotations p.parse_time cr.spec.rotations ≡ ok rotations)
  IsReady (Run.escalation k) w =
      let (found, v) = mgr.escalation_client.get k w in
      (cr : OpsgenieEscalation) × (id : String) × (rules : List Rule) × (found ≡ done cr)
      × ((Escalations.resolve_team_id escalations cr v).0 ≡ ok id)
      × ((Escalations.map_escalation_rules escalations cr.metadata.namespace cr.spec.rules
            (Escalations.resolve_team_id escalations cr v).1).0
          ≡ ok rules)
  IsReady (Run.incident_rule k) w =
      let (found, v) = mgr.incident_rule_client.get k w in
      (cr : OpsgenieIncidentRule) × (id : String) × (found ≡ done cr)
      × ((IncidentRule.resolve_service_id (incident_rule_reconciler p c mgr) cr v).0 ≡ ok id)

  -- Status updates succeed, and so do Opsgenie's creations, updates, lookups by id, and lists.
  pub record IsResponsive : Type 0 where
    pub teams : IsWritable (team_reconciler p c mgr)
    pub services : IsKept mgr.service_client
    pub schedules : IsKept mgr.schedule_client
    pub escalation_resources : IsKept mgr.escalation_client
    pub incident_rules : IsKept mgr.incident_rule_client
    pub serving : IsServing c.service
    pub scheduling : IsScheduling c.schedule
    pub paging : IsPaging c.escalation

  -- Let Kubernetes, in every world, store every status without an error, and let Opsgenie, in every
  -- world, answer all creations, all updates and the lists of incident rules without an error, and so
  -- the lookups of services, schedules and escalations by id, where every rotation of a schedule has
  -- a start date; lookups by name may fail. Then each reconciliation of a resource that is there,
  -- whose references are resolved and whose rotations are valid, ends without an error and without a
  -- panic, and asks to be called again after some time.
  pub run_of-IsRequeued : IsResponsive → (x : Run) (w : W) → IsReady x w → IsRequeued (run_of x w).0
  run_of-IsRequeued a (Run.team k) w (cr, found) =
      five_minutes-IsRequeued _ (reconcile_team-done (team_reconciler p c mgr) a.teams k cr w found)
  run_of-IsRequeued a (Run.service k) w (cr, id, found, resolved) =
      five_minutes-IsRequeued _
        (service_done (service_reconciler p c mgr) a.services a.serving k cr id w found resolved)
  run_of-IsRequeued a (Run.schedule k) w (cr, rotations, found, valid) =
      schedule_done (schedule_reconciler p c mgr) a.schedules a.scheduling k cr rotations w found
        valid
  run_of-IsRequeued a (Run.escalation k) w (cr, id, rules, found, owner, converted) =
      five_minutes-IsRequeued _ (
        escalation_done escalations a.escalation_resources a.paging k cr id rules w found owner
          converted)
  run_of-IsRequeued a (Run.incident_rule k) w (cr, id, found, resolved) =
      five_minutes-IsRequeued _ (
        rule_done (incident_rule_reconciler p c mgr) a.incident_rules a.serving k cr id w found
          resolved)
