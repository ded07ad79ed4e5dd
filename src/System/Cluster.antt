-- ===== src/System/Cluster.antt =====
-- A cluster with one resource of each kind, and an Opsgenie that finds nothing and creates all.
use opsgenie_operator.Prelude.{◌≡◌, ◌≢◌, [], none, some, pos, false}
use opsgenie_operator.Exec.{done, failed, ApiError}
use opsgenie_operator.Kube.{ObjectKey}
use opsgenie_operator.Api.Team.{OpsgenieTeam}
use opsgenie_operator.Api.Service.{OpsgenieService}
use opsgenie_operator.Api.Schedule.{OpsgenieSchedule}
use opsgenie_operator.Api.Escalation.{OpsgenieEscalation}
use opsgenie_operator.Api.IncidentRule.{OpsgenieIncidentRule}
use opsgenie_operator.Startup.Manager.{Manager}
use opsgenie_operator.Startup.Main.{Process, Clients}

abbrev pub key : ObjectKey
key = record { namespace = "ops"; name = "x" }

abbrev pub team : OpsgenieTeam
team = record {
  metadata = key;
  spec = record { name = "Backend"; description = ""; members = [] };
  status = record { team_id = ""; status = ""; last_synced_time = pos 0 };
}

abbrev pub service : OpsgenieService
service = record {
  metadata = key;
  spec = record {
    name = "Shop";
    description = "";
    team_id = "";
    team_ref = some (record { name = "x" });
    tags = [];
  };
  status = record { service_id = ""; status = ""; resolved_team_id = ""; last_synced_time = pos 0 };
}

abbrev pub schedule : OpsgenieSchedule
schedule = record {
  metadata = key;
  spec = record {
    name = "On call";
    description = "";
    time_zone = "UTC";
    rotations = [];
    owner_team = "Backend";
  };
  status = record { schedule_id = ""; status = ""; last_synced_time = pos 0 };
}

abbrev pub escalation : OpsgenieEscalation
escalation = record {
  metadata = key;
  spec = record {
    name = "Paging";
    description = "";
    team_id = "";
    team_ref = some (record { name = "x" });
    rules = [];
  };
  status = record {
    escalation_id = "";
    resolved_team_id = "";
    status = "";
    last_synced_time = pos 0;
  };
}

abbrev pub incident_rule : OpsgenieIncidentRule
incident_rule = record {
  metadata = key;
  spec = record {
    service_ref = some (record { name = "x" });
    conditions = [];
    condition_match_type = "match-all";
    incident_properties = record {
      message = "down";
      tags = [];
      details = [];
      description = "";
      priority = "P1";
      stakeholder_properties = record { enable = none; message = ""; description = "" };
    };
  };
  status = record { rule_id = ""; status = ""; last_synced_time = pos 0 };
}

-- The resources, and how many objects there are in Opsgenie is not kept.
pub record Cluster : Type 0 where
  pub at_team : OpsgenieTeam
  pub at_service : OpsgenieService
  pub at_schedule : OpsgenieSchedule
  pub at_escalation : OpsgenieEscalation
  pub at_incident_rule : OpsgenieIncidentRule

-- Every resource that is active has an id.
abbrev pub IsIdentified : Cluster → Type 0
IsIdentified w =
    (w.at_team.status.status ≡ "Active" → w.at_team.status.team_id ≢ "")
    × (w.at_service.status.status ≡ "Active" → w.at_service.status.service_id ≢ "")
    × (w.at_schedule.status.status ≡ "Active" → w.at_schedule.status.schedule_id ≢ "")
    × (w.at_escalation.status.status ≡ "Active" → w.at_escalation.status.escalation_id ≢ "")
    × (w.at_incident_rule.status.status ≡ "Active" → w.at_incident_rule.status.rule_id ≢ "")

abbrev pub refused : ApiError
refused = record { message = "refused"; not_found = false }

abbrev pub manager : Manager Cluster
manager = record {
  team_client = record {
    get = λ k w. (done w.at_team, w);
    update_status = λ c w. (done c, record w { at_team = c });
  };
  service_client = record {
    get = λ k w. (done w.at_service, w);
    update_status = λ c w. (done c, record w { at_service = c });
  };
  schedule_client = record {
    get = λ k w. (done w.at_schedule, w);
    update_status = λ c w. (done c, record w { at_schedule = c });
  };
  escalation_client = record {
    get = λ k w. (done w.at_escalation, w);
    update_status = λ c w. (done c, record w { at_escalation = c });
  };
  incident_rule_client = record {
    get = λ k w. (done w.at_incident_rule, w);
    update_status = λ c w. (done c, record w { at_incident_rule = c });
  };
  event_recorder_for = λ name e w. (tt, w);
  complete = λ g f w. (done tt, w);
  add = λ watcher w. (done tt, w);
  add_healthz_check = λ name w. (done tt, w);
  add_readyz_check = λ name w. (done tt, w);
  start = λ w. (done tt, w);
}

-- Opsgenie finds nothing, and creates whatever it is asked for.
abbrev pub clients : Clients Cluster
clients = record {
  service = record {
    get = λ q w. (failed refused, w);
    create = λ q w. (done (record { id = "S1" }), w);
    update = λ q w. (done tt, w);
    get_incident_rules = λ q w. (done [], w);
    create_incident_rule = λ q w. (done (record { id = "R1" }), w);
    update_incident_rule = λ q w. (done tt, w);
  };
  team = record {
    get = λ q w. (failed refused, w);
    create = λ q w. (done (record { id = "T1" }), w);
    update = λ q w. (done tt, w);
  };
  escalation = record {
    get = λ q w. (failed refused, w);
    create = λ q w. (done (record { id = "E1" }), w);
    update = λ q w. (done tt, w);
  };
  schedule = record {
    get = λ q w. (failed refused, w);
    create = λ q w. (done (record { id = "D1" }), w);
    update = λ q w. (done tt, w);
  };
}

abbrev pub process : Process Cluster
process = record {
  getenv = λ name w. ("key", w);
  parse_flags = λ s w. (s, w);
  new_service_client = λ k w. (done clients.service, w);
  new_team_client = λ k w. (done clients.team, w);
  new_escalation_client = λ k w. (done clients.escalation, w);
  new_schedule_client = λ k w. (done clients.schedule, w);
  join = λ dir name. dir;
  new_cert_watcher = λ cert k w. (done 1, w);
  get_config = λ w. (done tt, w);
  new_manager = λ o w. (done manager, w);
  now = λ w. (pos 7, w);
  parse_time = λ text. none;
  room = 0;
}

abbrev pub start : Cluster
start = record {
  at_team = team;
  at_service = service;
  at_schedule = schedule;
  at_escalation = escalation;
  at_incident_rule = incident_rule;
}
