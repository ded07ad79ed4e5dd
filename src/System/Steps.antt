-- ===== src/System/Steps.antt =====
-- The runs of the operator: any sequence of reconciliations, with changes by others in between. The
-- queue of controller-runtime, which decides on the order, is left open.
use opsgenie_operator.Kube.{ObjectKey}
use opsgenie_operator.Team.Reconcile as Team
use opsgenie_operator.Service.Reconcile as Service
use opsgenie_operator.Schedule.Reconcile as Schedule
use opsgenie_operator.Escalation.Reconcile as Escalation
use opsgenie_operator.IncidentRule.Reconcile as IncidentRule
use opsgenie_operator.Startup.Manager.{Manager}
use opsgenie_operator.Startup.Main.{
  Process, Clients, team_reconciler, service_reconciler, schedule_reconciler, escalation_reconciler,
  incident_rule_reconciler,
}

-- `Env` are the changes that others make: users, Kubernetes, Opsgenie.
module _ {W : Type 0} (p : Process W) (c : Clients W) (mgr : Manager W) (Env : W → W → Type 0) where
  pub data Step (w : W) : W → Type 0 where
    team_run : (k : ObjectKey) → Step w (Team.reconcile (team_reconciler p c mgr) k w).1
    service_run : (k : ObjectKey) → Step w (Service.reconcile (service_reconciler p c mgr) k w).1
    schedule_run : (k : ObjectKey) → Step w (Schedule.reconcile (schedule_reconciler p c mgr) k w).1
    escalation_run :
        (k : ObjectKey)
        → Step w
            (Escalation.reconcile
              (escalation_reconciler p c mgr
                (mgr.event_recorder_for "opsgenie-escalation-controller"))
              k
              w).1
    incident_rule_run :
        (k : ObjectKey) → Step w (IncidentRule.reconcile (incident_rule_reconciler p c mgr) k w).1
    elsewhere : {w' : W} → Env w w' → Step w w'

  pub data Reach (w : W) : W → Type 0 where
    here : Reach w w
    next : {v v' : W} → Reach w v → Step v v' → Reach w v'
