-- ===== src/DeepCopy/Objects.antt =====
-- What memory holds: arrays of each type that is copied, maps as the array of their entries, and the
-- objects of the Kubernetes libraries.
use opsgenie_operator.Api.Escalation.{OpsgenieEscalationStatus}
use opsgenie_operator.Api.IncidentRule.{OpsgenieIncidentCondition, OpsgenieIncidentRuleStatus}
use opsgenie_operator.Api.Schedule.{
  OpsgenieTimeInterval, OpsgenieParticipant, OpsgenieScheduleStatus,
}
use opsgenie_operator.Api.Service.{OpsgenieServiceStatus}
use opsgenie_operator.Api.Team.{OpsgenieTeamMember, OpsgenieTeamStatus}
use opsgenie_operator.Kube.{LocalObjectReference}
use opsgenie_operator.Prelude.{Bool, String, List}
use opsgenie_operator.Prelude.Dict.{Assignment}
use opsgenie_operator.DeepCopy.Types.{
  Layout, OpsgenieEscalationRecipient, OpsgenieEscalationRule, OpsgenieEscalationSpec,
  OpsgenieStakeholderProperties, OpsgenieIncidentProperties, OpsgenieIncidentResponder,
  OpsgenieIncidentRuleSpec, OpsgenieTimeRestriction, OpsgenieRotation, OpsgenieScheduleSpec,
  OpsgenieServiceSpec, OpsgenieTeamSpec, OpsgenieEscalation, OpsgenieIncidentRule, OpsgenieSchedule,
  OpsgenieService, OpsgenieTeam, OpsgenieEscalationList, OpsgenieIncidentRuleList,
  OpsgenieScheduleList, OpsgenieServiceList, OpsgenieTeamList,
}

module _ (layout : Layout) where
  pub data Object : Type 0 where
    foreign : layout.Foreign → Object
    bools : List (Bool) → Object
    strings : List (String) → Object
    entries : List (Assignment String) → Object
    references : List (LocalObjectReference) → Object
    escalation_recipients : List (OpsgenieEscalationRecipient) → Object
    escalation_rules : List (OpsgenieEscalationRule) → Object
    escalation_specs : List (OpsgenieEscalationSpec) → Object
    escalation_statuses : List (OpsgenieEscalationStatus) → Object
    incident_conditions : List (OpsgenieIncidentCondition) → Object
    incident_properties : List (OpsgenieIncidentProperties) → Object
    incident_responders : List (OpsgenieIncidentResponder) → Object
    incident_rule_specs : List (OpsgenieIncidentRuleSpec) → Object
    incident_rule_statuses : List (OpsgenieIncidentRuleStatus) → Object
    participants : List (OpsgenieParticipant) → Object
    rotations : List (OpsgenieRotation) → Object
    schedule_specs : List (OpsgenieScheduleSpec) → Object
    schedule_statuses : List (OpsgenieScheduleStatus) → Object
    service_specs : List (OpsgenieServiceSpec) → Object
    service_statuses : List (OpsgenieServiceStatus) → Object
    stakeholder_properties : List (OpsgenieStakeholderProperties) → Object
    team_members : List (OpsgenieTeamMember) → Object
    team_specs : List (OpsgenieTeamSpec) → Object
    team_statuses : List (OpsgenieTeamStatus) → Object
    time_intervals : List (OpsgenieTimeInterval) → Object
    time_restrictions : List (OpsgenieTimeRestriction) → Object
    escalations : List (OpsgenieEscalation layout) → Object
    incident_rules : List (OpsgenieIncidentRule layout) → Object
    schedules : List (OpsgenieSchedule layout) → Object
    services : List (OpsgenieService layout) → Object
    teams : List (OpsgenieTeam layout) → Object
    escalation_lists : List (OpsgenieEscalationList layout) → Object
    incident_rule_lists : List (OpsgenieIncidentRuleList layout) → Object
    schedule_lists : List (OpsgenieScheduleList layout) → Object
    service_lists : List (OpsgenieServiceList layout) → Object
    team_lists : List (OpsgenieTeamList layout) → Object
