-- ===== src/DeepCopy/KindArrays.antt =====
-- Arrays of resources, and of lists of resources.
use opsgenie_operator.Prelude.{refl, List, Option, none, some}
use opsgenie_operator.DeepCopy.Types.{
  Layout, OpsgenieEscalation, OpsgenieIncidentRule, OpsgenieSchedule, OpsgenieService, OpsgenieTeam,
  OpsgenieEscalationList, OpsgenieIncidentRuleList, OpsgenieScheduleList, OpsgenieServiceList,
  OpsgenieTeamList,
}
use opsgenie_operator.DeepCopy.Memory.{Stored}
use opsgenie_operator.DeepCopy.Objects.{
  Object, escalations, incident_rules, schedules, services, teams, escalation_lists,
  incident_rule_lists, schedule_lists, service_lists, team_lists,
}

module _ {layout : Layout} where
  abbrev escalation_array : Object layout → Option (List (OpsgenieEscalation layout))
  escalation_array (escalations xs) = some xs
  escalation_array _ = none

  instance abbrev pub escalation_stored : Stored (Object layout) (OpsgenieEscalation layout)
  escalation_stored = record { put = escalations; get = escalation_array; get-put = λ xs. refl }

  abbrev incident_rule_array : Object layout → Option (List (OpsgenieIncidentRule layout))
  incident_rule_array (incident_rules xs) = some xs
  incident_rule_array _ = none

  instance abbrev pub incident_rule_stored : Stored (Object layout) (OpsgenieIncidentRule layout)
  incident_rule_stored = record {
    put = incident_rules;
    get = incident_rule_array;
    get-put = λ xs. refl;
  }

  abbrev schedule_array : Object layout → Option (List (OpsgenieSchedule layout))
  schedule_array (schedules xs) = some xs
  schedule_array _ = none

  instance abbrev pub schedule_stored : Stored (Object layout) (OpsgenieSchedule layout)
  schedule_stored = record { put = schedules; get = schedule_array; get-put = λ xs. refl }

  abbrev service_array : Object layout → Option (List (OpsgenieService layout))
  service_array (services xs) = some xs
  service_array _ = none

  instance abbrev pub service_stored : Stored (Object layout) (OpsgenieService layout)
  service_stored = record { put = services; get = service_array; get-put = λ xs. refl }

  abbrev team_array : Object layout → Option (List (OpsgenieTeam layout))
  team_array (teams xs) = some xs
  team_array _ = none

  instance abbrev pub team_stored : Stored (Object layout) (OpsgenieTeam layout)
  team_stored = record { put = teams; get = team_array; get-put = λ xs. refl }

  abbrev escalation_list_array : Object layout → Option (List (OpsgenieEscalationList layout))
  escalation_list_array (escalation_lists xs) = some xs
  escalation_list_array _ = none

  instance abbrev pub escalation_list_stored :
      Stored (Object layout) (OpsgenieEscalationList layout)
  escalation_list_stored = record {
    put = escalation_lists;
    get = escalation_list_array;
    get-put = λ xs. refl;
  }

  abbrev incident_rule_list_array : Object layout → Option (List (OpsgenieIncidentRuleList layout))
  incident_rule_list_array (incident_rule_lists xs) = some xs
  incident_rule_list_array _ = none

  instance abbrev pub incident_rule_list_stored :
      Stored (Object layout) (OpsgenieIncidentRuleList layout)
  incident_rule_list_stored = record {
    put = incident_rule_lists;
    get = incident_rule_list_array;
    get-put = λ xs. refl;
  }

  abbrev schedule_list_array : Object layout → Option (List (OpsgenieScheduleList layout))
  schedule_list_array (schedule_lists xs) = some xs
  schedule_list_array _ = none

  instance abbrev pub schedule_list_stored : Stored (Object layout) (OpsgenieScheduleList layout)
  schedule_list_stored = record {
    put = schedule_lists;
    get = schedule_list_array;
    get-put = λ xs. refl;
  }

  abbrev service_list_array : Object layout → Option (List (OpsgenieServiceList layout))
  service_list_array (service_lists xs) = some xs
  service_list_array _ = none

  instance abbrev pub service_list_stored : Stored (Object layout) (OpsgenieServiceList layout)
  service_list_stored = record {
    put = service_lists;
    get = service_list_array;
    get-put = λ xs. refl;
  }

  abbrev team_list_array : Object layout → Option (List (OpsgenieTeamList layout))
  team_list_array (team_lists xs) = some xs
  team_list_array _ = none

  instance abbrev pub team_list_stored : Stored (Object layout) (OpsgenieTeamList layout)
  team_list_stored = record { put = team_lists; get = team_list_array; get-put = λ xs. refl }
