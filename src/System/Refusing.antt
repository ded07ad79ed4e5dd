-- ===== src/System/Refusing.antt =====
-- A cluster whose objects cannot be read, and an Opsgenie that refuses all requests.
use opsgenie_operator.Prelude.{none, pos}
use opsgenie_operator.Exec.{done, failed}
use opsgenie_operator.Kube.{Kube}
use opsgenie_operator.Startup.Manager.{Manager}
use opsgenie_operator.Startup.Main.{Process, Clients}
use opsgenie_operator.System.Cluster.{refused}

module _ {W Object : Type 0} where
  abbrev unreadable : Kube W Object
  unreadable = record { get = λ k w. (failed refused, w); update_status = λ c w. (done c, w) }

module _ {W : Type 0} where
  abbrev pub manager : Manager W
  manager = record {
    team_client = unreadable;
    service_client = unreadable;
    schedule_client = unreadable;
    escalation_client = unreadable;
    incident_rule_client = unreadable;
    event_recorder_for = λ name e w. (tt, w);
    complete = λ g f w. (done tt, w);
    add = λ watcher w. (done tt, w);
    add_healthz_check = λ name w. (done tt, w);
    add_readyz_check = λ name w. (done tt, w);
    start = λ w. (done tt, w);
  }

  abbrev pub clients : Clients W
  clients = record {
    service = record {
      get = λ q w. (failed refused, w);
      create = λ q w. (failed refused, w);
      update = λ q w. (failed refused, w);
      get_incident_rules = λ q w. (failed refused, w);
      create_incident_rule = λ q w. (failed refused, w);
      update_incident_rule = λ q w. (failed refused, w);
    };
    team = record {
      get = λ q w. (failed refused, w);
      create = λ q w. (failed refused, w);
      update = λ q w. (failed refused, w);
    };
    escalation = record {
      get = λ q w. (failed refused, w);
      create = λ q w. (failed refused, w);
      update = λ q w. (failed refused, w);
    };
    schedule = record {
      get = λ q w. (failed refused, w);
      create = λ q w. (failed refused, w);
      update = λ q w. (failed refused, w);
    };
  }

  abbrev pub process : Clients W → Manager W → Process W
  process c mgr = record {
    getenv = λ name w. ("key", w);
    parse_flags = λ s w. (s, w);
    new_service_client = λ k w. (done c.service, w);
    new_team_client = λ k w. (done c.team, w);
    new_escalation_client = λ k w. (done c.escalation, w);
    new_schedule_client = λ k w. (done c.schedule, w);
    join = λ dir name. dir;
    new_cert_watcher = λ cert k w. (done 1, w);
    get_config = λ w. (done tt, w);
    new_manager = λ o w. (done mgr, w);
    now = λ w. (pos 7, w);
    parse_time = λ text. none;
    room = 0;
  }
