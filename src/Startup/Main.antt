-- ===== src/Startup/Main.antt =====
-- `main`. The logger is left out.
use opsgenie_operator.Prelude.{
  ℕ, String, Bool, true, false, Option, none, some, ◌==◌, ◌!=◌, string_eq, if◌then◌else◌,
}
use opsgenie_operator.Exec.{Call, Reply, done, failed}
use opsgenie_operator.Kube.{Time}
use opsgenie_operator.Opsgenie.Team as TeamSdk
use opsgenie_operator.Opsgenie.Service as ServiceSdk
use opsgenie_operator.Opsgenie.Schedule as ScheduleSdk
use opsgenie_operator.Opsgenie.Escalation as EscalationSdk
use opsgenie_operator.Team.Reconcile.{OpsgenieTeamReconciler}
use opsgenie_operator.Service.Reconcile.{OpsgenieServiceReconciler}
use opsgenie_operator.Schedule.Reconcile.{OpsgenieScheduleReconciler}
use opsgenie_operator.Escalation.Reconciler.{Event, OpsgenieEscalationReconciler}
use opsgenie_operator.IncidentRule.Reconcile.{OpsgenieIncidentRuleReconciler}
use opsgenie_operator.Startup.Tls.{server_options}
use opsgenie_operator.Startup.Program.{Program, exit, return, ◌>>=◌, ◌>>◌, always}
use opsgenie_operator.Startup.Manager.{Manager, ManagerOptions}
use opsgenie_operator.Startup.Setup.{
  setup_team, setup_service, setup_schedule, setup_escalation, setup_incident_rule,
}

-- The variables that the flags set.
pub record Settings : Type 0 where
  pub metrics_addr : String
  pub metrics_cert_path : String
  pub metrics_cert_name : String
  pub metrics_cert_key : String
  pub webhook_cert_path : String
  pub webhook_cert_name : String
  pub webhook_cert_key : String
  pub enable_leader_election : Bool
  pub probe_addr : String
  pub secure_metrics : Bool
  pub enable_http2 : Bool
  pub opsgenie_api_key : String

-- Their values before `flag.Parse`, with the key of the environment.
abbrev pub defaults : String → Settings
defaults default_api_key = record {
  metrics_addr = "0";
  metrics_cert_path = "";
  metrics_cert_name = "tls.crt";
  metrics_cert_key = "tls.key";
  webhook_cert_path = "";
  webhook_cert_name = "tls.crt";
  webhook_cert_key = "tls.key";
  enable_leader_election = false;
  probe_addr = ":8081";
  secure_metrics = true;
  enable_http2 = false;
  opsgenie_api_key = default_api_key;
}

-- The libraries that `main` calls: parameters. `parse_flags` returns the settings with what the
-- command line says, `get_config` is `ctrl.GetConfigOrDie`, which ends the program like the other
-- calls if it fails, and `room` is the spare room that `append` leaves.
pub record Process (W : Type 0) : Type 0 where
  pub getenv : String → Call W String
  pub parse_flags : Settings → Call W Settings
  pub new_service_client : String → Call W (Reply (ServiceSdk.Client W))
  pub new_team_client : String → Call W (Reply (TeamSdk.Client W))
  pub new_escalation_client : String → Call W (Reply (EscalationSdk.Client W))
  pub new_schedule_client : String → Call W (Reply (ScheduleSdk.Client W))
  pub join : String → String → String
  pub new_cert_watcher : String → String → Call W (Reply ℕ)
  pub get_config : Call W (Reply (Unit {0}))
  pub new_manager : ManagerOptions → Call W (Reply (Manager W))
  pub now : Call W Time
  pub parse_time : String → Option Time
  pub room : ℕ

-- The four clients of the SDK.
pub record Clients (W : Type 0) : Type 0 where
  pub service : ServiceSdk.Client W
  pub team : TeamSdk.Client W
  pub escalation : EscalationSdk.Client W
  pub schedule : ScheduleSdk.Client W

-- The options of the manager, with the slices of `server_options`.
unfoldable pub manager_options : ℕ → Settings → Option ℕ → Option ℕ → ManagerOptions
manager_options room s webhook_watcher metrics_watcher =
    let (webhook, metrics, memory) =
      server_options room s.enable_http2 webhook_watcher metrics_watcher in
    record {
      metrics = record {
        bind_address = s.metrics_addr;
        secure_serving = s.secure_metrics;
        filtered = s.secure_metrics;
        tls_opts = metrics;
      };
      webhook_tls_opts = webhook;
      memory = memory;
      health_probe_bind_address = s.probe_addr;
      leader_election = s.enable_leader_election;
      leader_election_id = "738024d3.macpaw.dev";
    }

abbrev pub some_watcher : Reply ℕ → Reply (Option ℕ)
some_watcher (done watcher) = done (some watcher)
some_watcher (failed e) = failed e

module _ {W : Type 0} (p : Process W) where
  -- `if len(path) > 0`: a watcher for the two files in the directory
  unfoldable pub watch : String → String → String → Call W (Reply (Option ℕ))
  watch path name key =
      if path != ""
      then (λ w.
          let (r, w') = p.new_cert_watcher (p.join path name) (p.join path key) w in
          (some_watcher r, w'))
      else (λ w. (done none, w))

  -- The reconcilers, with the clients of the manager and of the SDK.
  abbrev pub service_reconciler : Clients W → Manager W → OpsgenieServiceReconciler W
  service_reconciler c mgr = record {
    client = mgr.service_client;
    team_client = mgr.team_client;
    opsgenie_client = c.service;
    now = p.now;
  }

  abbrev pub team_reconciler : Clients W → Manager W → OpsgenieTeamReconciler W
  team_reconciler c mgr = record { client = mgr.team_client; opsgenie_client = c.team; now = p.now }

  abbrev pub escalation_reconciler :
      Clients W → Manager W → (Event → Call W (Unit {0})) → OpsgenieEscalationReconciler W
  escalation_reconciler c mgr recorder = record {
    client = mgr.escalation_client;
    team_client = mgr.team_client;
    schedule_client = mgr.schedule_client;
    opsgenie_client = c.escalation;
    record_event = recorder;
    now = p.now;
  }

  abbrev pub schedule_reconciler : Clients W → Manager W → OpsgenieScheduleReconciler W
  schedule_reconciler c mgr = record {
    client = mgr.schedule_client;
    opsgenie_client = c.schedule;
    now = p.now;
    parse_time = p.parse_time;
  }

  abbrev pub incident_rule_reconciler : Clients W → Manager W → OpsgenieIncidentRuleReconciler W
  incident_rule_reconciler c mgr = record {
    client = mgr.incident_rule_client;
    service_client = mgr.service_client;
    opsgenie_client = c.service;
    now = p.now;
  }

  -- `if watcher != nil { mgr.Add(watcher) }`
  unfoldable pub add_watcher : Manager W → Option ℕ → Call W (Reply (Unit {0}))
  add_watcher mgr none w = (done tt, w)
  add_watcher mgr (some watcher) w = mgr.add watcher w

  -- The steps behind `ctrl.NewManager`.
  unfoldable pub run_manager : Clients W → Option ℕ → Option ℕ → Manager W → Program W
  unfolding setup_team setup_service setup_schedule setup_escalation setup_incident_rule add_watcher
  run_manager c webhook_watcher metrics_watcher mgr = do
    setup_service mgr (service_reconciler c mgr)
    setup_team mgr (team_reconciler c mgr)
    setup_escalation mgr (escalation_reconciler c mgr)
    setup_schedule mgr (schedule_reconciler c mgr)
    setup_incident_rule mgr (incident_rule_reconciler c mgr)
    add_watcher mgr metrics_watcher
    add_watcher mgr webhook_watcher
    mgr.add_healthz_check "healthz"
    mgr.add_readyz_check "readyz"
    mgr.start
    return

  -- The steps behind the clients: the watchers, the servers' options and the manager.
  unfoldable pub run_servers : Settings → Clients W → Program W
  unfolding watch manager_options run_manager
  run_servers s c = do
    webhook_watcher ← watch s.webhook_cert_path s.webhook_cert_name s.webhook_cert_key
    metrics_watcher ← watch s.metrics_cert_path s.metrics_cert_name s.metrics_cert_key
    p.get_config
    mgr ← p.new_manager (manager_options p.room s webhook_watcher metrics_watcher)
    run_manager c webhook_watcher metrics_watcher mgr

  -- The steps behind `flag.Parse`.
  unfoldable pub run : Settings → Program W
  unfolding run_servers
  run s = if s.opsgenie_api_key == "" then exit 1 else (do
    service ← p.new_service_client s.opsgenie_api_key
    team ← p.new_team_client s.opsgenie_api_key
    escalation ← p.new_escalation_client s.opsgenie_api_key
    schedule ← p.new_schedule_client s.opsgenie_api_key
    run_servers s
        (record { service = service; team = team; escalation = escalation; schedule = schedule }))

  unfoldable pub main : Program W
  unfolding run
  main = do
    default_api_key ← always (p.getenv "OPSGENIE_API_KEY")
    s ← always (p.parse_flags (defaults default_api_key))
    run s
