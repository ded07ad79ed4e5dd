-- ===== src/Service/Tests.antt =====
-- Runs of the service controller, and the theorems at concrete data.
use mathlib.Core.List.{Perm}
use text.Mathlib.TextEquality.{eq_iff}
use opsgenie_operator.Prelude.{
  String, true, false, ◌≡◌, ◌≢◌, ◌↔◌, refl, [], ◌∷◌, none, some, pos, All, string_eq, nat_eq, arith,
}
use opsgenie_operator.Prelude.Pigeonhole.{Nodup-pair}
use opsgenie_operator.Exec.{ok, err, done, failed, ApiError, team_unspecified, five_minutes}
use opsgenie_operator.Exec.Trace.{first}
use opsgenie_operator.Kube.{ObjectKey}
use opsgenie_operator.Api.Team.{OpsgenieTeam}
use opsgenie_operator.Api.Service.{OpsgenieService}
use opsgenie_operator.Kube.{key_eq}
use opsgenie_operator.Service.Memory.{World, memory, memory-IsLawful}
use opsgenie_operator.Service.Settled.{IsExpressible}
use opsgenie_operator.Service.Convergence.{reconcile_service_twice}
use opsgenie_operator.Service.Tags.{equal_string_slices}
use opsgenie_operator.Service.Comparison.{
  equal_string_slices-eq-true, equal_string_slices_asymmetric,
}
use opsgenie_operator.Service.Reconcile.{
  OpsgenieServiceReconciler, reconcile, resolve_team_id, create_request,
}
use opsgenie_operator.Service.Trace.{
  created, status_written, traced, IsNoCreate, IsNoUpdate, HasIds, wanted, reconcile_service-writes,
}

abbrev key : ObjectKey
key = record { namespace = "ops"; name = "shop" }

abbrev shop : OpsgenieService
shop = record {
  metadata = key;
  spec = record {
    name = "Shop";
    description = "the shop";
    team_id = "";
    team_ref = some (record { name = "backend" });
    tags = "a" ∷ "b" ∷ [];
  };
  status = record { service_id = ""; status = ""; resolved_team_id = ""; last_synced_time = pos 0 };
}

abbrev backend : OpsgenieTeam
backend = record {
  metadata = record { namespace = "ops"; name = "backend" };
  spec = record { name = "Backend"; description = "the backend team"; members = [] };
  status = record { team_id = "T1"; status = "Active"; last_synced_time = pos 0 };
}

abbrev refused : ApiError
refused = record { message = "refused"; not_found = false }

-- A world without state, in which the resource is `cr`.
abbrev fixed : OpsgenieService → OpsgenieServiceReconciler (Unit {0})
fixed cr = record {
  client = record { get = λ k w. (done cr, w); update_status = λ c w. (done c, w) };
  team_client = record { get = λ k w. (done backend, w); update_status = λ c w. (done c, w) };
  opsgenie_client = record {
    get = λ q w. (failed refused, w);
    create = λ q w. (done (record { id = "S1" }), w);
    update = λ q w. (done tt, w);
    get_incident_rules = λ q w. (done [], w);
    create_incident_rule = λ q w. (failed refused, w);
    update_incident_rule = λ q w. (failed refused, w);
  };
  now = λ w. (pos 7, w);
}

-- The same resource, of no team.
abbrev orphan : OpsgenieService
orphan = record shop { spec = record (shop.spec) { team_ref = none } }

equal_string_slices-eq-true_example :
    (equal_string_slices ("b" ∷ "a" ∷ []) ("a" ∷ "b" ∷ []) ≡ true)
    ↔ Perm {A = String} ("b" ∷ "a" ∷ []) ("a" ∷ "b" ∷ [])
equal_string_slices-eq-true_example =
    equal_string_slices-eq-true ("b" ∷ "a" ∷ []) ("a" ∷ "b" ∷ [])
      (Nodup-pair (ground (arith, eq_iff "a" "b")))

equal_string_slices_asymmetric_example :
    (equal_string_slices ("a" ∷ "b" ∷ []) ("a" ∷ "a" ∷ []) ≡ true)
    × (equal_string_slices ("a" ∷ "a" ∷ []) ("a" ∷ "b" ∷ []) ≡ false)
    × (¬ Perm {A = String} ("a" ∷ "b" ∷ []) ("a" ∷ "a" ∷ []))
equal_string_slices_asymmetric_example =
    equal_string_slices_asymmetric "a" "b" (ground (arith, eq_iff "a" "b"))

resolved : (resolve_team_id (fixed shop) shop tt).0 ≡ ok "T1"
unfolding resolve_team_id string_eq
resolved = refl

reconcile_service-writes_example :
    let log = (reconcile (traced (fixed shop)) key (tt, [])).1.1 in
    (shop.status.service_id ≢ "" → All IsNoCreate log)
    × (shop.status.service_id ≡ ""
        → (first log ≡ some (created (wanted shop "T1"))) × All IsNoUpdate log)
    × All (HasIds "T1") log
reconcile_service-writes_example =
    reconcile_service-writes (fixed shop) (λ q v. ground (arith, eq_iff "S1" "")) key shop tt "T1"
      refl resolved

unresolved : (resolve_team_id (fixed orphan) orphan tt).0 ≡ err team_unspecified
unfolding resolve_team_id string_eq
unresolved = refl

-- The service is created, and then its ids are recorded.
creation : reconcile (traced (fixed shop)) key (tt, []) ≡ (
  ok five_minutes,
  (
    tt,
    created (create_request shop "T1")
        ∷ status_written (record shop {
          status = record {
            service_id = "S1";
            status = "Active";
            resolved_team_id = "T1";
            last_synced_time = pos 7;
          };
        })
        ∷ [],
  ),
)
unfolding reconcile resolve_team_id string_eq
creation = refl

abbrev settled : OpsgenieService
settled = record shop {
  status = record {
    service_id = "S1";
    status = "Active";
    resolved_team_id = "T1";
    last_synced_time = pos 7;
  };
}

abbrev before : World
before = record { resource = shop; team = backend; service = none }

abbrev after : World
after = record before {
  resource = settled;
  service = some (record { name = "Shop"; description = "the shop"; tags = "a" ∷ "b" ∷ [] });
}

first_run : reconcile memory key before ≡ (ok five_minutes, after)
unfolding reconcile resolve_team_id string_eq key_eq
first_run = refl

shop-IsExpressible : IsExpressible shop
shop-IsExpressible = record {
  named = ground (arith, eq_iff "Shop" "");
  described = ground (arith, eq_iff "the shop" "");
  tagged = λ e. cc;
}

reconcile_service_twice_example : reconcile memory key after ≡ (ok five_minutes, after)
unfolding key_eq string_eq
reconcile_service_twice_example =
    reconcile_service_twice memory memory-IsLawful shop before {w' = after} shop-IsExpressible refl
      first_run
