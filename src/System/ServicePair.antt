-- ===== src/System/ServicePair.antt =====
-- A service in `Service.Memory`, and an incident rule that names it.
use opsgenie_operator.Prelude.{◌∷◌, [], none, some, pos}
use opsgenie_operator.Exec.{done}
use opsgenie_operator.Api.Service.{OpsgenieService}
use opsgenie_operator.Api.IncidentRule.{OpsgenieIncidentRule}
use opsgenie_operator.Service.Memory.{World, memory}
use opsgenie_operator.Startup.Manager.{Manager}
use opsgenie_operator.Startup.Main.{Process, Clients}
use opsgenie_operator.System.Cluster as Cluster
use opsgenie_operator.System.Refusing as Refusing

abbrev pub service : OpsgenieService
service = record {
  metadata = record { namespace = "ops"; name = "shop" };
  spec = record {
    name = "Shop";
    description = "sells";
    team_id = "T1";
    team_ref = none;
    tags = "web" ∷ [];
  };
  status = record { service_id = ""; status = ""; resolved_team_id = ""; last_synced_time = pos 0 };
}

abbrev pub rule : OpsgenieIncidentRule
rule = record Cluster.incident_rule {
  metadata = record { namespace = "ops"; name = "outage" };
  spec = record (Cluster.incident_rule.spec) { service_ref = some (record { name = "shop" }) };
}

abbrev pub manager : Manager World
manager = record Refusing.manager {
  team_client = memory.team_client;
  service_client = memory.client;
  incident_rule_client = record { get = λ k w. (done rule, w); update_status = λ c w. (done c, w) };
}

abbrev pub clients : Clients World
clients = record Refusing.clients { service = memory.opsgenie_client }

abbrev pub process : Process World
process = Refusing.process clients manager

-- Opsgenie has no service yet.
abbrev pub before : World
before = record { resource = service; team = Cluster.team; service = none }

abbrev pub after : World
after = record {
  resource = record service {
    status = record {
      service_id = "S1";
      status = "Active";
      resolved_team_id = "T1";
      last_synced_time = pos 7;
    };
  };
  team = Cluster.team;
  service = some (record { name = "Shop"; description = "sells"; tags = "web" ∷ [] });
}
