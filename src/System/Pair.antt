-- ===== src/System/Pair.antt =====
-- A team in `Team.Memory`, and a service that names it.
use opsgenie_operator.Prelude.{◌∷◌, [], none, some, pos}
use opsgenie_operator.Exec.{done}
use opsgenie_operator.Kube.{ObjectKey}
use opsgenie_operator.Api.Team.{OpsgenieTeam}
use opsgenie_operator.Api.Service.{OpsgenieService}
use opsgenie_operator.Team.Memory.{World, memory}
use opsgenie_operator.Startup.Manager.{Manager}
use opsgenie_operator.Startup.Main.{Process, Clients}
use opsgenie_operator.System.Cluster as Cluster
use opsgenie_operator.System.Refusing as Refusing

abbrev pub team_key : ObjectKey
team_key = record { namespace = "ops"; name = "backend" }

abbrev pub team : OpsgenieTeam
team = record {
  metadata = team_key;
  spec = record {
    name = "Backend";
    description = "the backend team";
    members = record { user_id = "ann@x.org"; role = "admin" } ∷ [];
  };
  status = record { team_id = ""; status = ""; last_synced_time = pos 0 };
}

abbrev pub service : OpsgenieService
service = record Cluster.service {
  metadata = record { namespace = "ops"; name = "shop" };
  spec = record (Cluster.service.spec) { team_ref = some (record { name = "backend" }) };
}

abbrev pub manager : Manager World
manager = record Refusing.manager {
  team_client = memory.client;
  service_client = record { get = λ k w. (done service, w); update_status = λ c w. (done c, w) };
}

abbrev pub clients : Clients World
clients = record Refusing.clients {
  service = record (Refusing.clients.service) { create = λ q w. (done (record { id = "S1" }), w) };
  team = memory.opsgenie_client;
}

abbrev pub process : Process World
process = Refusing.process clients manager

-- Opsgenie has no team yet.
abbrev pub before : World
before = record { resource = team; team = none }

abbrev pub after : World
after = record {
  resource = record team {
    status = record { team_id = "T1"; status = "Active"; last_synced_time = pos 7 };
  };
  team = some (record {
    id = "T1";
    name = "Backend";
    description = "the backend team";
    members = record { username = "ann@x.org"; role = "admin" } ∷ [];
  });
}
