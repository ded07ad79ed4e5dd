-- ===== src/System/ChainTests.antt =====
-- Chains of reconciliations at concrete data.
use text.Mathlib.TextEquality.{eq_iff}
use opsgenie_operator.Prelude.{String, ◌≡◌, ◌≢◌, refl, arith, [], some, string_eq}
use opsgenie_operator.Exec.{done, ok, five_minutes}
use opsgenie_operator.Exec.Trace.{first}
use opsgenie_operator.Kube.{key_eq}
use opsgenie_operator.Team.Memory.{memory-IsLawful}
use opsgenie_operator.Team.Updates.{IsExpressible}
use opsgenie_operator.Service.Trace.{created, traced}
use opsgenie_operator.System.Pair as Pair
use opsgenie_operator.Team.Reconcile as Team
use opsgenie_operator.Service.Reconcile as Service
use opsgenie_operator.Startup.Main.{service_reconciler}
use opsgenie_operator.Prelude.{[], false, String}
use opsgenie_operator.Service.Settled as Settled
use opsgenie_operator.Service.Memory as ServiceMemory
use opsgenie_operator.Service.Tags.{is_update_required}
use opsgenie_operator.Service.Lawful.{service_at}
use opsgenie_operator.Opsgenie.Service as Sdk
use opsgenie_operator.IncidentRule.Requests.{map_create_incident_rule}
use opsgenie_operator.IncidentRule.Reconcile as Rule
use opsgenie_operator.IncidentRule.Trace as RuleTrace
use opsgenie_operator.Startup.Main.{incident_rule_reconciler}
use opsgenie_operator.System.Chain.{rule_after_service}
use opsgenie_operator.System.ServicePair as ServicePair

-- The service is created first.
service_created :
    Service.reconcile
      (service_reconciler ServicePair.process ServicePair.clients ServicePair.manager)
      ServicePair.service.metadata
      ServicePair.before
    ≡ (ok five_minutes, ServicePair.after)
unfolding Service.reconcile Service.resolve_team_id string_eq key_eq
service_created = refl

service-IsExpressible : Settled.IsExpressible ServicePair.service
service-IsExpressible = record {
  named = ground (arith, eq_iff "Shop" "");
  described = ground (arith, eq_iff "sells" "");
  tagged = λ e. cc;
}

rule_after_service_example :
    let log =
      (Rule.reconcile
        (RuleTrace.traced
          (incident_rule_reconciler ServicePair.process ServicePair.clients ServicePair.manager))
        ServicePair.rule.metadata
        (ServicePair.after, [])).1.1 in
    (id : String) × (s : Sdk.Service) × (service_at
        (service_reconciler ServicePair.process ServicePair.clients ServicePair.manager)
        id
        ServicePair.after
      ≡ done s)
    × (is_update_required ServicePair.service s ≡ false)
    × (id ≢ "")
    × (first log ≡ some (RuleTrace.created (map_create_incident_rule ServicePair.rule id)))
unfolding key_eq string_eq
rule_after_service_example =
    rule_after_service ServicePair.process ServicePair.clients ServicePair.manager
      ServiceMemory.memory-IsLawful ServicePair.service ServicePair.rule ServicePair.before
      {w' = ServicePair.after} (λ id. []) service-IsExpressible refl service_created refl
      (λ id. refl) (λ id. tt)
      (record { ref = record { name = "shop" }; by_ref = refl; named = refl })
