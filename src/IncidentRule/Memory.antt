-- ===== src/IncidentRule/Memory.antt =====
-- A world with one incident rule, its service, and the rules that Opsgenie lists, which shows that the
-- assumptions of `IncidentRule.Lawful` can be met and lets the tests run the reconciler.
use opsgenie_operator.Prelude.{true, refl, List, ◌∷◌, pos, ◌==◌, if◌then◌else◌, arith}
use opsgenie_operator.Exec.{done, failed, ApiError}
use opsgenie_operator.Kube.{key_eq}
use opsgenie_operator.Api.Service.{OpsgenieService}
use opsgenie_operator.Api.IncidentRule.{OpsgenieIncidentRule}
use opsgenie_operator.Opsgenie.Service.{IncidentRuleResult}
use opsgenie_operator.IncidentRule.Reconcile.{OpsgenieIncidentRuleReconciler}
use opsgenie_operator.IncidentRule.Lawful.{IsLawful}

pub record World : Type 0 where
  pub resource : OpsgenieIncidentRule
  pub rules : List IncidentRuleResult

abbrev refused : ApiError
refused = record { message = "refused"; not_found = true }

module _ (service : OpsgenieService) where
  abbrev pub memory : OpsgenieIncidentRuleReconciler World
  memory = record {
    client = record {
      get = λ k w. (if w.resource.metadata == k then done w.resource else failed refused, w);
      update_status = λ c w. (done c, record w { resource = c });
    };
    service_client = record {
      get = λ k w. (if service.metadata == k then done service else failed refused, w);
      update_status = λ c w. (failed refused, w);
    };
    opsgenie_client = record {
      get = λ q w. (failed refused, w);
      create = λ q w. (failed refused, w);
      update = λ q w. (failed refused, w);
      get_incident_rules = λ q w. (done w.rules, w);
      create_incident_rule =
          λ q w. (done (record { id = "R9" }), record w { rules = record { id = "R9" } ∷ w.rules });
      update_incident_rule = λ q w. (done tt, w);
    };
    now = λ w. (pos 7, w);
  }

  pub memory-IsLawful : IsLawful memory
  memory-IsLawful = record {
    get_quiet = λ k w. refl;
    get_service_quiet = λ k w. refl;
    rules_quiet = λ id w. refl;
    now_kept = λ w. record { same_service = λ k. refl; same_rules = λ id. refl };
    status_stored = λ c h. ground arith;
    status_kept = λ c h. record { same_service = λ k. refl; same_rules = λ id. ground arith };
    create_service = λ q h k. refl;
    create_listed = λ q {a} {w} {w'} h.
        (record { id = "R9" } ∷ w.rules, ground arith, λ none_has. none_has.0 (ground arith));
    update_kept = λ q h. record { same_service = λ k. refl; same_rules = λ id. ground arith };
  }
