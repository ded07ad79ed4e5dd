-- ===== src/Startup/Tests.antt =====
-- Runs of `main` in a world that is the record of its steps, and the theorems at concrete data.
use opsgenie_operator.Prelude.{
  String, false, ◌≡◌, ◌≢◌, refl, List, [], ◌∷◌, ◌++◌, none, some, pos, string_eq, map,
}
use Prim.Native.String.{◌++◌ as ◌<>◌}
use opsgenie_operator.Exec.{Call, Reply, done, failed, ApiError}
use opsgenie_operator.Kube.{Kube}
use opsgenie_operator.Startup.Slices.{elements}
use opsgenie_operator.Startup.Tls.{Config, configure}
use opsgenie_operator.Startup.TlsLaws.{intended, manager_options-configure}
use opsgenie_operator.Startup.Program.{returned, exited, ◌>>=◌}
use opsgenie_operator.Startup.Manager.{Manager}
use opsgenie_operator.Startup.Main.{defaults, Process, main, manager_options}
use opsgenie_operator.Startup.Follows.{Taken, is_done, success, Finished}
use opsgenie_operator.Startup.Order.{settings, main-Finished}
use opsgenie_operator.Startup.Recorded.{
  Step, service_api, team_api, escalation_api, schedule_api, client_made, watcher_made, config_read,
  manager_made, registered, watcher_added, healthz_added, readyz_added, manager_started,
  IsManagerLogged, IsLogged, all_steps,
}

abbrev World : Type 0
World = List (Taken Step)

abbrev refused : ApiError
refused = record { message = "refused"; not_found = false }

abbrev noting : {A : Type 0} → Step → Reply A → Call World (Reply A)
noting e r w = (r, w ++ (record { step = e; succeeded = is_done r } ∷ []))

abbrev no_kube : {O : Type 0} → Kube World O
no_kube = record { get = λ k w. (failed refused, w); update_status = λ c w. (failed refused, w) }

-- A manager whose start answers `r`.
abbrev manager : Reply (Unit {0}) → Manager World
manager r = record {
  team_client = no_kube;
  service_client = no_kube;
  schedule_client = no_kube;
  escalation_client = no_kube;
  incident_rule_client = no_kube;
  event_recorder_for = λ name e w. (tt, w);
  complete = λ g f. noting (registered g) (done tt);
  add = λ watcher. noting watcher_added (done tt);
  add_healthz_check = λ name. noting healthz_added (done tt);
  add_readyz_check = λ name. noting readyz_added (done tt);
  start = noting manager_started r;
}

-- A process with this key in the environment, no flags but the path of the metrics certificates,
-- and a manager whose start answers `r`.
abbrev process : String → Reply (Unit {0}) → Process World
process key r = record {
  getenv = λ name w. (key, w);
  parse_flags = λ s w. (record s { metrics_cert_path = "/certs" }, w);
  new_service_client = λ k. noting (client_made service_api) (
      done (record {
        get = λ q w. (failed refused, w);
        create = λ q w. (failed refused, w);
        update = λ q w. (failed refused, w);
        get_incident_rules = λ q w. (failed refused, w);
        create_incident_rule = λ q w. (failed refused, w);
        update_incident_rule = λ q w. (failed refused, w);
      }));
  new_team_client = λ k. noting (client_made team_api) (
      done (record {
        get = λ q w. (failed refused, w);
        create = λ q w. (failed refused, w);
        update = λ q w. (failed refused, w);
      }));
  new_escalation_client = λ k. noting (client_made escalation_api) (
      done (record {
        get = λ q w. (failed refused, w);
        create = λ q w. (failed refused, w);
        update = λ q w. (failed refused, w);
      }));
  new_schedule_client = λ k. noting (client_made schedule_api) (
      done (record {
        get = λ q w. (failed refused, w);
        create = λ q w. (failed refused, w);
        update = λ q w. (failed refused, w);
      }));
  join = λ dir name. dir <> "/" <> name;
  new_cert_watcher = λ cert k. noting watcher_made (done 1);
  get_config = noting config_read (done tt);
  new_manager = λ o. noting manager_made (done (manager r));
  now = λ w. (pos 7, w);
  parse_time = λ text. none;
  room = 0;
}

manager-IsManagerLogged : (r : Reply (Unit {0})) → IsManagerLogged (λ w. w) (manager r)
manager-IsManagerLogged r = record {
  complete = λ g f w. refl;
  add = λ watcher w. refl;
  healthz = λ name w. refl;
  readyz = λ name w. refl;
  start = λ w. refl;
}

process-IsLogged : (key : String) (r : Reply (Unit {0})) → IsLogged (λ w. w) (process key r)
process-IsLogged key r = record {
  getenv = λ name w. refl;
  parse_flags = λ s w. refl;
  service = λ k w. refl;
  team = λ k w. refl;
  escalation = λ k w. refl;
  schedule = λ k w. refl;
  watcher = λ cert k w. refl;
  config = λ w. refl;
  manager = λ o w. refl;
  manager_answer = λ o w. manager-IsManagerLogged r;
}

-- A run takes all of the steps, and returns once the manager has stopped.
full_run :
    main (process "key" (done tt)) []
    ≡ (returned, map success (all_steps (record (defaults "key") { metrics_cert_path = "/certs" })))
unfolding main string_eq ◌>>=◌
full_run = refl

keyless_run : main (process "" (done tt)) [] ≡ (exited 1, [])
unfolding main string_eq ◌>>=◌
keyless_run = refl

main-Finished_example :
    let s = settings (λ w. w) (process "key" (failed refused)) [] in
    let end = main (process "key" (failed refused)) [] in
    (s.opsgenie_api_key ≡ "" → (end.0 ≡ exited 1) × (end.1 ≡ []))
    × (s.opsgenie_api_key ≢ "" → Finished (λ w. w) (all_steps s) [] end)
main-Finished_example =
    main-Finished (λ w. w) (process "key" (failed refused))
      (process-IsLogged "key" (failed refused)) []

abbrev base : Config
base = record { next_protos = "h2" ∷ "http/1.1" ∷ []; certificate = none }

manager_options-configure_example :
    let o = manager_options 0 (defaults "key") (some 1) (some 2) in
    (configure (elements o.memory o.webhook_tls_opts) base ≡ intended false (some 1) base)
    × (configure (elements o.memory o.metrics.tls_opts) base ≡ intended false (some 2) base)
    × (o.metrics.filtered ≡ o.metrics.secure_serving)
manager_options-configure_example =
    manager_options-configure (defaults "key") (some 1) (some 2) base
