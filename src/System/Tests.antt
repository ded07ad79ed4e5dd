-- ===== src/System/Tests.antt =====
-- A run of the operator on a small cluster, and the theorems at it.
use opsgenie_operator.Prelude.{String, refl, [], string_eq}
use opsgenie_operator.Exec.{done}
use opsgenie_operator.Kube.{key_eq}
use opsgenie_operator.Startup.Main.{Clients}
use opsgenie_operator.System.Progress.{IsRequeued}
use opsgenie_operator.System.Requeued.{Run, IsReady, IsResponsive, run_of, run_of-IsRequeued}
use opsgenie_operator.Team.Reconcile as Team
use opsgenie_operator.Service.Reconcile as Service
use opsgenie_operator.Startup.Main.{team_reconciler, service_reconciler}
use opsgenie_operator.System.Cluster.{key, Cluster, manager, clients, process, start}

-- A user may change what a team is to be called.
data Edit (w : Cluster) : Cluster → Type 0 where
  renamed :
      (name : String)
      → Edit w (record w {
        at_team = record (w.at_team) { spec = record (w.at_team.spec) { name = name } };
      })

-- The service is reconciled before its team, and once more after it.
abbrev early : Cluster
early = (Service.reconcile (service_reconciler process clients manager) key start).1

abbrev later : Cluster
later = (Team.reconcile (team_reconciler process clients manager) key early).1

-- An Opsgenie that has what it is asked for.
abbrev answering : Clients Cluster
answering = record clients {
  service = record (clients.service) {
    get = λ q w. (done (record { name = "Shop"; description = ""; tags = [] }), w);
  };
  schedule = record (clients.schedule) {
    get =
        λ q w. (done (record { id = "D1"; description = ""; timezone = "UTC"; rotations = [] }), w);
  };
  escalation = record (clients.escalation) {
    get = λ q w. (done (record { id = "E1"; name = "Paging"; description = ""; rules = [] }), w);
  };
}

responsive : IsResponsive process answering manager
responsive = record {
  teams = record { update_status = λ c w. tt; create = λ q w. tt; update = λ q w. tt };
  services = λ c w. tt;
  schedules = λ c w. tt;
  escalation_resources = λ c w. tt;
  incident_rules = λ c w. tt;
  serving = record {
    get = λ q w. tt;
    create = λ q w. tt;
    update = λ q w. tt;
    rules = λ q w. tt;
    create_rule = λ q w. tt;
    update_rule = λ q w. tt;
  };
  scheduling = record { get = λ q w. tt; create = λ q w. tt; update = λ q w. tt };
  paging = record { get = λ id w. tt; create = λ q w. tt; update = λ q w. tt };
}

-- The service is known to Opsgenie, and the resource of its team has an id.
abbrev served : Cluster
served = record start {
  at_team = record (start.at_team) { status = record (start.at_team.status) { team_id = "T1" } };
  at_service = record (start.at_service) {
    status = record (start.at_service.status) { service_id = "S1" };
  };
}

ready : IsReady process answering manager (Run.service key) served
unfolding Service.resolve_team_id Service.team_of_ref string_eq
ready = (served.at_service, "T1", refl, refl)

run_of-IsRequeued_example : IsRequeued (run_of process answering manager (Run.service key) served).0
run_of-IsRequeued_example =
    run_of-IsRequeued process answering manager responsive (Run.service key) served ready
