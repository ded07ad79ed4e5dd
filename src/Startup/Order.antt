-- ===== src/Startup/Order.antt =====
-- The order of the steps of `main`.
use opsgenie_operator.Prelude.{
  ℕ, String, true, false, ◌≡◌, ◌≢◌, refl, ap, ◌∙◌, inl, inr, List, [], ◌∷◌, ◌++◌, Option, none,
  some, ◌==◌, ◌!=◌, string_eq, arith, Bool-cases,
}
use opsgenie_operator.Exec.{Reply, done, failed}
use opsgenie_operator.Startup.Program.{Program, exited, ◌>>=◌}
use opsgenie_operator.Startup.Manager.{Manager}
use opsgenie_operator.Startup.Setup.{
  team_registration, service_registration, schedule_registration, escalation_registration,
  incident_rule_registration, setup_team, setup_service, setup_schedule, setup_escalation,
  setup_incident_rule,
}
use opsgenie_operator.Startup.Main.{
  Settings, defaults, Process, Clients, some_watcher, watch, manager_options, add_watcher,
  run_manager, run_servers, run, main,
}
use opsgenie_operator.Startup.Follows.{
  Taken, is_done, Finished, Follows, Follows-return, Follows-step, Follows-quiet,
}
use opsgenie_operator.Startup.Recorded.{
  Step, watcher_made, config_read, manager_made, registered, watcher_added, healthz_added,
  readyz_added, manager_started, if_given, manager_steps, all_steps, IsManagerLogged, IsLogged,
}

module _ {W : Type 0} (log : W → List (Taken Step)) where
  -- A step that is taken if there is a watcher.
  abbrev if_some : Option ℕ → Step → List Step → List Step
  if_some none e steps = steps
  if_some (some watcher) e steps = e ∷ steps

  module _ (p : Process W) (logged : IsLogged log p) where
    add_watcher-Follows :
        (mgr : Manager W)
        → IsManagerLogged log mgr
        → (o : Option ℕ) (steps : List Step) (k : Unit {0} → Program W) → Follows log steps (k tt)
        → Follows log (if_some o watcher_added steps) (add_watcher p mgr o >>= k)
    unfolding add_watcher
    add_watcher-Follows mgr m none steps k f = Follows-quiet log steps _ k tt (λ w. refl) f
    add_watcher-Follows mgr m (some watcher) steps k f =
        Follows-step log watcher_added steps _ k (m.add watcher) (λ w a h. f)

    run_manager-Follows :
        (c : Clients W) (webhook metrics : Option ℕ) (mgr : Manager W)
        → IsManagerLogged log mgr
        → Follows log
            (registered service_registration
              ∷ registered team_registration
              ∷ registered escalation_registration
              ∷ registered schedule_registration
              ∷ registered incident_rule_registration
              ∷ if_some metrics watcher_added (
                  if_some webhook watcher_added
                    (healthz_added ∷ readyz_added ∷ manager_started ∷ [])))
            (run_manager p c webhook metrics mgr)
    unfolding run_manager setup_team setup_service setup_schedule setup_escalation
        setup_incident_rule
    run_manager-Follows c webhook metrics mgr m =
        Follows-step log _ _ _ _ (m.complete service_registration _) λ _ _ _.
          Follows-step log _ _ _ _ (m.complete team_registration _) λ _ _ _.
            Follows-step log _ _ _ _ (m.complete escalation_registration _) λ _ _ _.
              Follows-step log _ _ _ _ (m.complete schedule_registration _) λ _ _ _.
                Follows-step log _ _ _ _ (m.complete incident_rule_registration _) λ _ _ _.
                  add_watcher-Follows mgr m metrics _ _ (
                    add_watcher-Follows mgr m webhook _ _ (
                      Follows-step log _ _ _ _ (m.healthz "healthz") λ _ _ _.
                        Follows-step log _ _ _ _ (m.readyz "readyz")
                          λ _ _ _. Follows-step log _ _ _ _ m.start λ _ _ _. Follows-return log))

    -- There is a watcher if the path is given.
    IsFor : String → Option ℕ → Type 0
    IsFor path none = (path != "") ≡ false
    IsFor path (some watcher) = (path != "") ≡ true

    if_some-eq-if_given :
        (path : String) (o : Option ℕ) (e : Step) (steps : List Step)
        → IsFor path o
        → if_some o e steps ≡ if_given path e steps
    unfolding IsFor
    if_some-eq-if_given path none e steps h = rw h refl
    if_some-eq-if_given path (some watcher) e steps h = rw h refl

    is_done-some_watcher : (r : Reply ℕ) → is_done r ≡ is_done (some_watcher r)
    is_done-some_watcher (done w) = refl
    is_done-some_watcher (failed e) = refl

    some_watcher-IsFor :
        (path : String) (r : Reply ℕ) (o : Option ℕ)
        → (path != "") ≡ true
        → some_watcher r ≡ done o
        → IsFor path o
    unfolding IsFor
    some_watcher-IsFor path (done w) none h e = cc
    some_watcher-IsFor path (done w) (some w') h e = h
    some_watcher-IsFor path (failed x) o h e = cc

    watch-Follows :
        (path name key : String) (steps : List Step) (k : Option ℕ → Program W)
        → ((o : Option ℕ) → IsFor path o → Follows log steps (k o))
        → Follows log (if_given path watcher_made steps) (watch p path name key >>= k)
    unfolding watch IsFor
    watch-Follows path name key steps k f = elim (Bool-cases (path != "")) [
      | inl given ↦ rw given (
          Follows-step log watcher_made steps _ k
            (λ w.
              logged.watcher (p.join path name) (p.join path key) w
              ∙ ap (λ b. log w ++ (record { step = watcher_made; succeeded = b } ∷ []))
                  (is_done-some_watcher
                    (p.new_cert_watcher (p.join path name) (p.join path key) w).0))
            λ w o h. f o (some_watcher-IsFor path _ o given h))
      | inr missing ↦ rw missing (Follows-quiet log steps _ k none (λ w. refl) (f none missing))
    ]

    run_servers-Follows :
        (s : Settings) (c : Clients W)
        → Follows log
            (if_given s.webhook_cert_path watcher_made (
              if_given s.metrics_cert_path watcher_made
                (config_read ∷ manager_made ∷ manager_steps s)))
            (run_servers p s c)
    unfolding run_servers
    run_servers-Follows s c =
        watch-Follows s.webhook_cert_path s.webhook_cert_name s.webhook_cert_key _ _ λ webhook hw.
          watch-Follows s.metrics_cert_path s.metrics_cert_name s.metrics_cert_key _ _ λ metrics hm.
            Follows-step log _ _ _ _ logged.config λ _ _ _.
              Follows-step log _ _ _ _ (logged.manager _) λ w mgr made.
                let m : IsManagerLogged log mgr =
                  rw made at (logged.manager_answer (manager_options p.room s webhook metrics) w) in
                rw
                  (
                    ← if_some-eq-if_given s.metrics_cert_path metrics watcher_added _ hm,
                    ← if_some-eq-if_given s.webhook_cert_path webhook watcher_added _ hw,
                  )
                  (run_manager-Follows c webhook metrics mgr m)

    run_unkeyed : (s : Settings) → s.opsgenie_api_key ≡ "" → (w : W) → run p s w ≡ (exited 1, w)
    unfolding run
    run_unkeyed s h w =
        let missing : (s.opsgenie_api_key == "") ≡ true = ground arith in rw missing refl

    clients-Follows : (s : Settings) → s.opsgenie_api_key ≢ "" → Follows log (all_steps s) (run p s)
    unfolding run
    clients-Follows s h =
        let given : (s.opsgenie_api_key == "") ≡ false = ground arith in
        rw given (
          Follows-step log _ _ _ _ (logged.service s.opsgenie_api_key) λ _ service _.
            Follows-step log _ _ _ _ (logged.team s.opsgenie_api_key) λ _ team _.
              Follows-step log _ _ _ _ (logged.escalation s.opsgenie_api_key) λ _ escalation _.
                Follows-step log _ _ _ _ (logged.schedule s.opsgenie_api_key) λ _ schedule _.
                  run_servers-Follows s (record {
                    service = service;
                    team = team;
                    escalation = escalation;
                    schedule = schedule;
                  }))

  -- The settings of a run: the flags, over the key of the environment.
  abbrev pub settings : Process W → W → Settings
  settings p w = let (key, v) = p.getenv "OPSGENIE_API_KEY" w in (p.parse_flags (defaults key) v).0

  -- Let the calls of `main` be recorded in the world, each with its success. Without an API key,
  -- neither by flag nor in the environment, `main` exits with status 1 and takes no step. With one it
  -- takes its steps in order: the four clients, the watchers for the certificate paths that are
  -- given, the configuration, the manager, the five controllers, the watchers again, the two checks,
  -- and only then the start. Either all of them succeed and `main` returns, or it takes those up to
  -- the first that fails, takes none after it, and exits with status 1.
  pub main-Finished :
      (p : Process W)
      → IsLogged log p
      → (w : W)
      → ((settings p w).opsgenie_api_key ≡ ""
          → ((main p w).0 ≡ exited 1) × (log (main p w).1 ≡ log w))
        × ((settings p w).opsgenie_api_key ≢ ""
            → Finished log (all_steps (settings p w)) w (main p w))
  unfolding main ◌>>=◌ Follows
  main-Finished p logged w =
      let quiet = logged.parse_flags _ _ ∙ logged.getenv "OPSGENIE_API_KEY" w in
      (
        λ missing. (
          ap (λ x. x.0) (run_unkeyed p logged _ missing _),
          ap (λ x. log x.1) (run_unkeyed p logged _ missing _) ∙ quiet,
        ),
        λ given.
            let f = clients-Follows p logged (settings p w) given _ in
            record {
              taken = f.taken;
              recorded = f.recorded ∙ ap (λ l. l ++ f.taken) quiet;
              ended = f.ended;
            },
      )
