-- ===== src/DeepCopy/Arrays.antt =====
-- Arrays of values of Go and of Kubernetes, and of statuses.
use opsgenie_operator.Api.Escalation.{OpsgenieEscalationStatus}
use opsgenie_operator.Api.IncidentRule.{OpsgenieIncidentRuleStatus}
use opsgenie_operator.Api.Schedule.{OpsgenieScheduleStatus}
use opsgenie_operator.Api.Service.{OpsgenieServiceStatus}
use opsgenie_operator.Api.Team.{OpsgenieTeamStatus}
use opsgenie_operator.Kube.{LocalObjectReference}
use opsgenie_operator.Prelude.{Bool, String, refl, List, Option, none, some}
use opsgenie_operator.Prelude.Dict.{Assignment}
use opsgenie_operator.DeepCopy.Types.{Layout}
use opsgenie_operator.DeepCopy.Memory.{Stored}
use opsgenie_operator.DeepCopy.Objects.{
  Object, bools, strings, entries, references, escalation_statuses, incident_rule_statuses,
  schedule_statuses, service_statuses, team_statuses,
}

module _ {layout : Layout} where
  abbrev bool_array : Object layout → Option (List (Bool))
  bool_array (bools xs) = some xs
  bool_array _ = none

  instance abbrev pub bool_stored : Stored (Object layout) (Bool)
  bool_stored = record { put = bools; get = bool_array; get-put = λ xs. refl }

  abbrev string_array : Object layout → Option (List (String))
  string_array (strings xs) = some xs
  string_array _ = none

  instance abbrev pub string_stored : Stored (Object layout) (String)
  string_stored = record { put = strings; get = string_array; get-put = λ xs. refl }

  abbrev entry_array : Object layout → Option (List (Assignment String))
  entry_array (entries xs) = some xs
  entry_array _ = none

  instance abbrev pub entry_stored : Stored (Object layout) (Assignment String)
  entry_stored = record { put = entries; get = entry_array; get-put = λ xs. refl }

  abbrev reference_array : Object layout → Option (List (LocalObjectReference))
  reference_array (references xs) = some xs
  reference_array _ = none

  instance abbrev pub reference_stored : Stored (Object layout) (LocalObjectReference)
  reference_stored = record { put = references; get = reference_array; get-put = λ xs. refl }

  abbrev escalation_status_array : Object layout → Option (List (OpsgenieEscalationStatus))
  escalation_status_array (escalation_statuses xs) = some xs
  escalation_status_array _ = none

  instance abbrev pub escalation_status_stored : Stored (Object layout) (OpsgenieEscalationStatus)
  escalation_status_stored = record {
    put = escalation_statuses;
    get = escalation_status_array;
    get-put = λ xs. refl;
  }

  abbrev incident_rule_status_array : Object layout → Option (List (OpsgenieIncidentRuleStatus))
  incident_rule_status_array (incident_rule_statuses xs) = some xs
  incident_rule_status_array _ = none

  instance abbrev pub incident_rule_status_stored :
      Stored (Object layout) (OpsgenieIncidentRuleStatus)
  incident_rule_status_stored = record {
    put = incident_rule_statuses;
    get = incident_rule_status_array;
    get-put = λ xs. refl;
  }

  abbrev schedule_status_array : Object layout → Option (List (OpsgenieScheduleStatus))
  schedule_status_array (schedule_statuses xs) = some xs
  schedule_status_array _ = none

  instance abbrev pub schedule_status_stored : Stored (Object layout) (OpsgenieScheduleStatus)
  schedule_status_stored = record {
    put = schedule_statuses;
    get = schedule_status_array;
    get-put = λ xs. refl;
  }

  abbrev service_status_array : Object layout → Option (List (OpsgenieServiceStatus))
  service_status_array (service_statuses xs) = some xs
  service_status_array _ = none

  instance abbrev pub service_status_stored : Stored (Object layout) (OpsgenieServiceStatus)
  service_status_stored = record {
    put = service_statuses;
    get = service_status_array;
    get-put = λ xs. refl;
  }

  abbrev team_status_array : Object layout → Option (List (OpsgenieTeamStatus))
  team_status_array (team_statuses xs) = some xs
  team_status_array _ = none

  instance abbrev pub team_status_stored : Stored (Object layout) (OpsgenieTeamStatus)
  team_status_stored = record { put = team_statuses; get = team_status_array; get-put = λ xs. refl }
