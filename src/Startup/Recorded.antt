-- ===== src/Startup/Recorded.antt =====
-- The steps of `main`, and worlds that record them.
use opsgenie_operator.Prelude.{ℕ, String, ◌≡◌, List, [], ◌∷◌, ◌++◌, ◌!=◌, string_eq, if◌then◌else◌}
use opsgenie_operator.Exec.{Call, Reply, done, failed, Proc, Result}
use opsgenie_operator.Kube.{ObjectKey}
use opsgenie_operator.Startup.Manager.{Manager, ManagerOptions, Registration}
use opsgenie_operator.Startup.Setup.{
  team_registration, service_registration, schedule_registration, escalation_registration,
  incident_rule_registration,
}
use opsgenie_operator.Startup.Main.{Settings, Process}
use opsgenie_operator.Startup.Follows.{Taken, is_done}

pub data Sdk : Type 0 where
  service_api team_api escalation_api schedule_api : Sdk

-- What `main` does, each once it is asked for.
pub data Step : Type 0 where
  client_made : Sdk → Step
  watcher_made : Step
  config_read : Step
  manager_made : Step
  registered : Registration → Step
  watcher_added : Step
  healthz_added readyz_added : Step
  manager_started : Step

-- A step for a certificate path that is given.
abbrev pub if_given : String → Step → List Step → List Step
if_given path e steps = if path != "" then e ∷ steps else steps

abbrev pub manager_steps : Settings → List Step
manager_steps s =
    registered service_registration
    ∷ registered team_registration
    ∷ registered escalation_registration
    ∷ registered schedule_registration
    ∷ registered incident_rule_registration
    ∷ if_given s.metrics_cert_path watcher_added (
        if_given s.webhook_cert_path watcher_added
          (healthz_added ∷ readyz_added ∷ manager_started ∷ []))

-- All steps of a run with these settings: the clients, the watchers, the manager, the five
-- controllers, the watchers and checks that the manager is to run, and its start.
abbrev pub all_steps : Settings → List Step
all_steps s =
    client_made service_api
    ∷ client_made team_api
    ∷ client_made escalation_api
    ∷ client_made schedule_api
    ∷ if_given s.webhook_cert_path watcher_made
        (if_given s.metrics_cert_path watcher_made (config_read ∷ manager_made ∷ manager_steps s))

module _ {W : Type 0} (log : W → List (Taken Step)) where
  -- A call is recorded, with its success.
  abbrev pub Notes : {A : Type 0} → Step → Call W (Reply A) → Type 0
  Notes e m =
      (w : W) → log (m w).1 ≡ log w ++ (record { step = e; succeeded = is_done (m w).0 } ∷ [])

  -- The manager's calls are recorded.
  pub record IsManagerLogged (mgr : Manager W) : Type 0 where
    pub complete :
        (g : Registration) (f : ObjectKey → Proc W Result) → Notes (registered g) (mgr.complete g f)
    pub add : (watcher : ℕ) → Notes watcher_added (mgr.add watcher)
    pub healthz : (name : String) → Notes healthz_added (mgr.add_healthz_check name)
    pub readyz : (name : String) → Notes readyz_added (mgr.add_readyz_check name)
    pub start : Notes manager_started mgr.start

  abbrev pub IsAnswerLogged : Reply (Manager W) → Type 0
  IsAnswerLogged (done mgr) = IsManagerLogged mgr
  IsAnswerLogged (failed e) = Unit

  -- The calls of `main` are recorded, but for the reads of the environment and of the flags.
  pub record IsLogged (p : Process W) : Type 0 where
    pub getenv : (name : String) (w : W) → log (p.getenv name w).1 ≡ log w
    pub parse_flags : (s : Settings) (w : W) → log (p.parse_flags s w).1 ≡ log w
    pub service : (key : String) → Notes (client_made service_api) (p.new_service_client key)
    pub team : (key : String) → Notes (client_made team_api) (p.new_team_client key)
    pub escalation :
        (key : String) → Notes (client_made escalation_api) (p.new_escalation_client key)
    pub schedule : (key : String) → Notes (client_made schedule_api) (p.new_schedule_client key)
    pub watcher : (cert key : String) → Notes watcher_made (p.new_cert_watcher cert key)
    pub config : Notes config_read p.get_config
    pub manager : (o : ManagerOptions) → Notes manager_made (p.new_manager o)
    pub manager_answer : (o : ManagerOptions) (w : W) → IsAnswerLogged (p.new_manager o w).0
