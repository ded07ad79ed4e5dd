-- ===== src/Startup/Setup.antt =====
-- `SetupWithManager` of the five controllers.
use opsgenie_operator.Exec.{Call, Reply}
use opsgenie_operator.Team.Reconcile as Team
use opsgenie_operator.Service.Reconcile as Service
use opsgenie_operator.Schedule.Reconcile as Schedule
use opsgenie_operator.Escalation.Reconcile as Escalation
use opsgenie_operator.Escalation.Reconciler.{Event, OpsgenieEscalationReconciler}
use opsgenie_operator.IncidentRule.Reconcile as IncidentRule
use opsgenie_operator.Startup.Manager.{Manager, Registration, Kind, generation_changed}

abbrev pub team_registration : Registration
team_registration = record { kind = Kind.team; filter = generation_changed; name = "opsgenie-team" }

abbrev pub service_registration : Registration
service_registration = record {
  kind = Kind.service;
  filter = generation_changed;
  name = "opsgenie-service";
}

abbrev pub schedule_registration : Registration
schedule_registration = record {
  kind = Kind.schedule;
  filter = generation_changed;
  name = "opsgenieschedule";
}

abbrev pub escalation_registration : Registration
escalation_registration = record {
  kind = Kind.escalation;
  filter = generation_changed;
  name = "opsgenieescalation";
}

abbrev pub incident_rule_registration : Registration
incident_rule_registration = record {
  kind = Kind.incident_rule;
  filter = generation_changed;
  name = "opsgenieincidentrule";
}

module _ {W : Type 0} (mgr : Manager W) where
  unfoldable pub setup_team : Team.OpsgenieTeamReconciler W → Call W (Reply (Unit {0}))
  setup_team r = mgr.complete team_registration (Team.reconcile r)

  unfoldable pub setup_service : Service.OpsgenieServiceReconciler W → Call W (Reply (Unit {0}))
  setup_service r = mgr.complete service_registration (Service.reconcile r)

  unfoldable pub setup_schedule : Schedule.OpsgenieScheduleReconciler W → Call W (Reply (Unit {0}))
  setup_schedule r = mgr.complete schedule_registration (Schedule.reconcile r)

  -- The argument is the reconciler without its `Recorder`, which is set here.
  unfoldable pub setup_escalation :
      ((Event → Call W (Unit {0})) → OpsgenieEscalationReconciler W) → Call W (Reply (Unit {0}))
  setup_escalation r =
      mgr.complete escalation_registration
        (Escalation.reconcile (r (mgr.event_recorder_for "opsgenie-escalation-controller")))

  unfoldable pub setup_incident_rule :
      IncidentRule.OpsgenieIncidentRuleReconciler W → Call W (Reply (Unit {0}))
  setup_incident_rule r = mgr.complete incident_rule_registration (IncidentRule.reconcile r)
