-- ===== src/DeepCopy/Views.antt =====
-- What is read from memory of each struct, and of an object of each kind.
use opsgenie_operator.Prelude.{Bool, String, List, Option, none, some}
use opsgenie_operator.Api.Escalation as Escalation
use opsgenie_operator.Api.IncidentRule as IncidentRule
use opsgenie_operator.Api.Schedule as Schedule
use opsgenie_operator.Api.Service as Service
use opsgenie_operator.Api.Team as Team
use opsgenie_operator.DeepCopy.Types.{
  Layout, Resource, ResourceList, OpsgenieEscalationRecipient, OpsgenieEscalationRule,
  OpsgenieEscalationSpec, OpsgenieStakeholderProperties, OpsgenieIncidentProperties,
  OpsgenieIncidentRuleSpec, OpsgenieTimeRestriction, OpsgenieRotation, OpsgenieScheduleSpec,
  OpsgenieServiceSpec, OpsgenieTeamSpec,
}
use opsgenie_operator.DeepCopy.Objects.{Object}
use opsgenie_operator.DeepCopy.Arrays.{bool_stored, string_stored, entry_stored, reference_stored}
use opsgenie_operator.DeepCopy.PartArrays.{
  escalation_rule_stored, incident_condition_stored, participant_stored, rotation_stored,
  team_member_stored, time_interval_stored, time_restriction_stored,
}
use opsgenie_operator.DeepCopy.KindArrays.{
  escalation_stored, escalation_list_stored, incident_rule_stored, incident_rule_list_stored,
  schedule_stored, schedule_list_stored, service_stored, service_list_stored, team_stored,
  team_list_stored,
}
use opsgenie_operator.DeepCopy.Methods.Runtime.{
  Kind, escalation, escalation_list, incident_rule, incident_rule_list, schedule, schedule_list,
  service, service_list, team, team_list, RuntimeObject,
}
use opsgenie_operator.DeepCopy.Memory.{Pointer, Stored}
use opsgenie_operator.DeepCopy.Values.{
  View, plain, items, target, reference, entry, recipient, escalation_rule, escalation_spec,
  stakeholder, properties, rule_spec, time_restriction, rotation, schedule_spec, service_spec,
  team_spec,
}

-- The same, read from memory.
module _ {layout : Layout} where
  abbrev pub recipient_view :
      View (Object layout) OpsgenieEscalationRecipient Escalation.OpsgenieEscalationRecipient
  recipient_view m x = recipient x (reference m x.schedule_ref) (reference m x.team_ref)

  abbrev pub escalation_rule_view :
      View (Object layout) OpsgenieEscalationRule Escalation.OpsgenieEscalationRule
  escalation_rule_view m x = escalation_rule x (recipient_view m x.recipient)

  abbrev pub escalation_spec_view :
      View (Object layout) OpsgenieEscalationSpec Escalation.OpsgenieEscalationSpec
  escalation_spec_view m x =
      escalation_spec x (reference m x.team_ref) (items escalation_rule_view m x.rules)

  abbrev pub stakeholder_view :
      View (Object layout) OpsgenieStakeholderProperties IncidentRule.OpsgenieStakeholderProperties
  stakeholder_view m x = stakeholder x (target (plain {A = Bool}) m x.enable)

  abbrev pub properties_view :
      View
        (Object layout)
        OpsgenieIncidentProperties
        (IncidentRule.OpsgenieIncidentProperties × (String → Option String))
  properties_view m x =
      properties x (items (plain {A = String}) m x.tags) (entry m x.details)
        (stakeholder_view m x.stakeholder_properties)

  abbrev pub rule_spec_view :
      View
        (Object layout)
        OpsgenieIncidentRuleSpec
        (IncidentRule.OpsgenieIncidentRuleSpec × (String → Option String))
  rule_spec_view m x =
      rule_spec x (reference m x.service_ref)
        (items (plain {A = IncidentRule.OpsgenieIncidentCondition}) m x.conditions)
        (properties_view m x.incident_properties)

  abbrev pub time_restriction_view :
      View (Object layout) OpsgenieTimeRestriction Schedule.OpsgenieTimeRestriction
  time_restriction_view m x =
      time_restriction x (items (plain {A = Schedule.OpsgenieTimeInterval}) m x.intervals)

  abbrev pub rotation_view : View (Object layout) OpsgenieRotation Schedule.OpsgenieRotation
  rotation_view m x =
      rotation x (items (plain {A = Schedule.OpsgenieParticipant}) m x.participants)
        (target time_restriction_view m x.time_restriction)

  abbrev pub schedule_spec_view :
      View (Object layout) OpsgenieScheduleSpec Schedule.OpsgenieScheduleSpec
  schedule_spec_view m x = schedule_spec x (items rotation_view m x.rotations)

  abbrev pub service_spec_view :
      View (Object layout) OpsgenieServiceSpec Service.OpsgenieServiceSpec
  service_spec_view m x =
      service_spec x (reference m x.team_ref) (items (plain {A = String}) m x.tags)

  abbrev pub team_spec_view : View (Object layout) OpsgenieTeamSpec Team.OpsgenieTeamSpec
  team_spec_view m x = team_spec x (items (plain {A = Team.OpsgenieTeamMember}) m x.members)

  module _ {A V Status : Type 0} (v : View (Object layout) A V) where
    abbrev pub resource_view : View (Object layout) (Resource layout A Status) (V × Status)
    resource_view m x = (v m x.spec, x.status)

  module _ {A V : Type 0} ⦃stored : Stored (Object layout) A⦄ (v : View (Object layout) A V) where
    abbrev pub list_view : View (Object layout) (ResourceList layout A) (List V)
    list_view m x = items v m x.items

-- What an object of this kind is to a reader, if it is there.
abbrev pub Value : Kind → Type 0
Value escalation = Option (Escalation.OpsgenieEscalationSpec × Escalation.OpsgenieEscalationStatus)
Value escalation_list =
    Option (List (Escalation.OpsgenieEscalationSpec × Escalation.OpsgenieEscalationStatus))
Value incident_rule = Option (
    (IncidentRule.OpsgenieIncidentRuleSpec × (String → Option String))
    × IncidentRule.OpsgenieIncidentRuleStatus)
Value incident_rule_list = Option (
    List (
      (IncidentRule.OpsgenieIncidentRuleSpec × (String → Option String))
      × IncidentRule.OpsgenieIncidentRuleStatus))
Value schedule = Option (Schedule.OpsgenieScheduleSpec × Schedule.OpsgenieScheduleStatus)
Value schedule_list =
    Option (List (Schedule.OpsgenieScheduleSpec × Schedule.OpsgenieScheduleStatus))
Value service = Option (Service.OpsgenieServiceSpec × Service.OpsgenieServiceStatus)
Value service_list = Option (List (Service.OpsgenieServiceSpec × Service.OpsgenieServiceStatus))
Value team = Option (Team.OpsgenieTeamSpec × Team.OpsgenieTeamStatus)
Value team_list = Option (List (Team.OpsgenieTeamSpec × Team.OpsgenieTeamStatus))

module _ {layout : Layout} where
  abbrev pub value : (k : Kind) → View (Object layout) (Option Pointer) (Value k)
  value escalation = target (resource_view escalation_spec_view)
  value escalation_list = target (list_view (resource_view escalation_spec_view))
  value incident_rule = target (resource_view rule_spec_view)
  value incident_rule_list = target (list_view (resource_view rule_spec_view))
  value schedule = target (resource_view schedule_spec_view)
  value schedule_list = target (list_view (resource_view schedule_spec_view))
  value service = target (resource_view service_spec_view)
  value service_list = target (list_view (resource_view service_spec_view))
  value team = target (resource_view team_spec_view)
  value team_list = target (list_view (resource_view team_spec_view))

  abbrev pub seen : View (Object layout) (Option RuntimeObject) (Option ((k : Kind) × Value k))
  seen m none = none
  seen m (some x) = some (x.kind, value x.kind m x.pointer)
