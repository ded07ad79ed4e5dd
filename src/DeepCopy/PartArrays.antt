-- ===== src/DeepCopy/PartArrays.antt =====
-- Arrays of specs and of what is in them.
use opsgenie_operator.Api.IncidentRule.{OpsgenieIncidentCondition}
use opsgenie_operator.Api.Schedule.{OpsgenieTimeInterval, OpsgenieParticipant}
use opsgenie_operator.Api.Team.{OpsgenieTeamMember}
use opsgenie_operator.Prelude.{refl, List, Option, none, some}
use opsgenie_operator.DeepCopy.Types.{
  Layout, OpsgenieEscalationRecipient, OpsgenieEscalationRule, OpsgenieEscalationSpec,
  OpsgenieStakeholderProperties, OpsgenieIncidentProperties, OpsgenieIncidentResponder,
  OpsgenieIncidentRuleSpec, OpsgenieTimeRestriction, OpsgenieRotation, OpsgenieScheduleSpec,
  OpsgenieServiceSpec, OpsgenieTeamSpec,
}
use opsgenie_operator.DeepCopy.Memory.{Stored}
use opsgenie_operator.DeepCopy.Objects.{
  Object, escalation_recipients, escalation_rules, escalation_specs, incident_conditions,
  incident_properties, incident_responders, incident_rule_specs, participants, rotations,
  schedule_specs, service_specs, stakeholder_properties, team_members, team_specs, time_intervals,
  time_restrictions,
}

module _ {layout : Layout} where
  abbrev escalation_recipient_array : Object layout → Option (List (OpsgenieEscalationRecipient))
  escalation_recipient_array (escalation_recipients xs) = some xs
  escalation_recipient_array _ = none

  instance abbrev pub escalation_recipient_stored :
      Stored (Object layout) (OpsgenieEscalationRecipient)
  escalation_recipient_stored = record {
    put = escalation_recipients;
    get = escalation_recipient_array;
    get-put = λ xs. refl;
  }

  abbrev escalation_rule_array : Object layout → Option (List (OpsgenieEscalationRule))
  escalation_rule_array (escalation_rules xs) = some xs
  escalation_rule_array _ = none

  instance abbrev pub escalation_rule_stored : Stored (Object layout) (OpsgenieEscalationRule)
  escalation_rule_stored = record {
    put = escalation_rules;
    get = escalation_rule_array;
    get-put = λ xs. refl;
  }

  abbrev escalation_spec_array : Object layout → Option (List (OpsgenieEscalationSpec))
  escalation_spec_array (escalation_specs xs) = some xs
  escalation_spec_array _ = none

  instance abbrev pub escalation_spec_stored : Stored (Object layout) (OpsgenieEscalationSpec)
  escalation_spec_stored = record {
    put = escalation_specs;
    get = escalation_spec_array;
    get-put = λ xs. refl;
  }

  abbrev incident_condition_array : Object layout → Option (List (OpsgenieIncidentCondition))
  incident_condition_array (incident_conditions xs) = some xs
  incident_condition_array _ = none

  instance abbrev pub incident_condition_stored : Stored (Object layout) (OpsgenieIncidentCondition)
  incident_condition_stored = record {
    put = incident_conditions;
    get = incident_condition_array;
    get-put = λ xs. refl;
  }

  abbrev incident_properties_array : Object layout → Option (List (OpsgenieIncidentProperties))
  incident_properties_array (incident_properties xs) = some xs
  incident_properties_array _ = none

  instance abbrev pub incident_properties_stored :
      Stored (Object layout) (OpsgenieIncidentProperties)
  incident_properties_stored = record {
    put = incident_properties;
    get = incident_properties_array;
    get-put = λ xs. refl;
  }

  abbrev incident_responder_array : Object layout → Option (List (OpsgenieIncidentResponder))
  incident_responder_array (incident_responders xs) = some xs
  incident_responder_array _ = none

  instance abbrev pub incident_responder_stored : Stored (Object layout) (OpsgenieIncidentResponder)
  incident_responder_stored = record {
    put = incident_responders;
    get = incident_responder_array;
    get-put = λ xs. refl;
  }

  abbrev incident_rule_spec_array : Object layout → Option (List (OpsgenieIncidentRuleSpec))
  incident_rule_spec_array (incident_rule_specs xs) = some xs
  incident_rule_spec_array _ = none

  instance abbrev pub incident_rule_spec_stored : Stored (Object layout) (OpsgenieIncidentRuleSpec)
  incident_rule_spec_stored = record {
    put = incident_rule_specs;
    get = incident_rule_spec_array;
    get-put = λ xs. refl;
  }

  abbrev participant_array : Object layout → Option (List (OpsgenieParticipant))
  participant_array (participants xs) = some xs
  participant_array _ = none

  instance abbrev pub participant_stored : Stored (Object layout) (OpsgenieParticipant)
  participant_stored = record { put = participants; get = participant_array; get-put = λ xs. refl }

  abbrev rotation_array : Object layout → Option (List (OpsgenieRotation))
  rotation_array (rotations xs) = some xs
  rotation_array _ = none

  instance abbrev pub rotation_stored : Stored (Object layout) (OpsgenieRotation)
  rotation_stored = record { put = rotations; get = rotation_array; get-put = λ xs. refl }

  abbrev schedule_spec_array : Object layout → Option (List (OpsgenieScheduleSpec))
  schedule_spec_array (schedule_specs xs) = some xs
  schedule_spec_array _ = none

  instance abbrev pub schedule_spec_stored : Stored (Object layout) (OpsgenieScheduleSpec)
  schedule_spec_stored = record {
    put = schedule_specs;
    get = schedule_spec_array;
    get-put = λ xs. refl;
  }

  abbrev service_spec_array : Object layout → Option (List (OpsgenieServiceSpec))
  service_spec_array (service_specs xs) = some xs
  service_spec_array _ = none

  instance abbrev pub service_spec_stored : Stored (Object layout) (OpsgenieServiceSpec)
  service_spec_stored = record {
    put = service_specs;
    get = service_spec_array;
    get-put = λ xs. refl;
  }

  abbrev stakeholder_properties_array :
      Object layout → Option (List (OpsgenieStakeholderProperties))
  stakeholder_properties_array (stakeholder_properties xs) = some xs
  stakeholder_properties_array _ = none

  instance abbrev pub stakeholder_properties_stored :
      Stored (Object layout) (OpsgenieStakeholderProperties)
  stakeholder_properties_stored = record {
    put = stakeholder_properties;
    get = stakeholder_properties_array;
    get-put = λ xs. refl;
  }

  abbrev team_member_array : Object layout → Option (List (OpsgenieTeamMember))
  team_member_array (team_members xs) = some xs
  team_member_array _ = none

  instance abbrev pub team_member_stored : Stored (Object layout) (OpsgenieTeamMember)
  team_member_stored = record { put = team_members; get = team_member_array; get-put = λ xs. refl }

  abbrev team_spec_array : Object layout → Option (List (OpsgenieTeamSpec))
  team_spec_array (team_specs xs) = some xs
  team_spec_array _ = none

  instance abbrev pub team_spec_stored : Stored (Object layout) (OpsgenieTeamSpec)
  team_spec_stored = record { put = team_specs; get = team_spec_array; get-put = λ xs. refl }

  abbrev time_interval_array : Object layout → Option (List (OpsgenieTimeInterval))
  time_interval_array (time_intervals xs) = some xs
  time_interval_array _ = none

  instance abbrev pub time_interval_stored : Stored (Object layout) (OpsgenieTimeInterval)
  time_interval_stored = record {
    put = time_intervals;
    get = time_interval_array;
    get-put = λ xs. refl;
  }

  abbrev time_restriction_array : Object layout → Option (List (OpsgenieTimeRestriction))
  time_restriction_array (time_restrictions xs) = some xs
  time_restriction_array _ = none

  instance abbrev pub time_restriction_stored : Stored (Object layout) (OpsgenieTimeRestriction)
  time_restriction_stored = record {
    put = time_restrictions;
    get = time_restriction_array;
    get-put = λ xs. refl;
  }
