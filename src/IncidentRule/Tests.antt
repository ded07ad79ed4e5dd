-- ===== src/IncidentRule/Tests.antt =====
-- Runs of the incident rule controller, and the theorems at concrete data.
use opsgenie_operator.Prelude.{
  true, false, ◌≡◌, ◌≢◌, refl, List, [], ◌∷◌, none, some, pos, All, string_eq,
}
use opsgenie_operator.Exec.{ok, err, done, failed, ApiError, service_ref_unspecified, five_minutes}
use opsgenie_operator.Exec.Trace.{first}
use opsgenie_operator.IncidentRule.RoundTrip.{read_create, read_update, map_incident_rule_roundtrip}
use opsgenie_operator.IncidentRule.Once.{reconcile_rule_once}
use opsgenie_operator.IncidentRule.Memory.{World, memory, memory-IsLawful}
use opsgenie_operator.Kube.{ObjectKey, key_eq}
use opsgenie_operator.Api.Service.{OpsgenieService}
use opsgenie_operator.Api.IncidentRule.{OpsgenieIncidentRule}
use opsgenie_operator.Opsgenie.Service.{IncidentRuleResult}
use opsgenie_operator.IncidentRule.Requests.{map_create_incident_rule, map_update_incident_rule}
use opsgenie_operator.IncidentRule.Reconcile.{
  OpsgenieIncidentRuleReconciler, reconcile, resolve_service_id, find_rule,
}
use opsgenie_operator.IncidentRule.Trace.{
  created, updated, status_written, traced, IsNoCreate, IsNoUpdate, reconcile_rule-writes,
}

abbrev key : ObjectKey
key = record { namespace = "ops"; name = "outage" }

abbrev outage : OpsgenieIncidentRule
outage = record {
  metadata = key;
  spec = record {
    service_ref = some (record { name = "shop" });
    conditions = record { field = "message"; operation = "contains"; expected_value = "down" } ∷ [];
    condition_match_type = "match-all-conditions";
    incident_properties = record {
      message = "{{message}}";
      tags = "outage" ∷ [];
      details = record { key = "region"; value = "eu" } ∷ [];
      description = "";
      priority = "P1";
      stakeholder_properties = record { enable = some true; message = "down"; description = "" };
    };
  };
  status = record { rule_id = "R1"; status = "Active"; last_synced_time = pos 0 };
}

abbrev shop : OpsgenieService
shop = record {
  metadata = record { namespace = "ops"; name = "shop" };
  spec = record { name = "Shop"; description = ""; team_id = "T1"; team_ref = none; tags = [] };
  status = record {
    service_id = "S1";
    status = "Active";
    resolved_team_id = "T1";
    last_synced_time = pos 0;
  };
}

abbrev orphan : OpsgenieIncidentRule
orphan = record outage { spec = record (outage.spec) { service_ref = none } }

abbrev refused : ApiError
refused = record { message = "refused"; not_found = false }

abbrev listed : List IncidentRuleResult
listed = record { id = "R0" } ∷ record { id = "R1" } ∷ []

-- A world without state, in which the resource is `cr`.
abbrev fixed : OpsgenieIncidentRule → OpsgenieIncidentRuleReconciler (Unit {0})
fixed cr = record {
  client = record { get = λ k w. (done cr, w); update_status = λ c w. (done c, w) };
  service_client = record { get = λ k w. (done shop, w); update_status = λ c w. (done c, w) };
  opsgenie_client = record {
    get = λ q w. (failed refused, w);
    create = λ q w. (failed refused, w);
    update = λ q w. (failed refused, w);
    get_incident_rules = λ q w. (done listed, w);
    create_incident_rule = λ q w. (done (record { id = "R2" }), w);
    update_incident_rule = λ q w. (done tt, w);
  };
  now = λ w. (pos 7, w);
}

resolved : (resolve_service_id (fixed outage) outage tt).0 ≡ ok "S1"
unfolding resolve_service_id
resolved = refl

reconcile_rule-writes_example :
    let log = (reconcile (traced (fixed outage)) key (tt, [])).1.1 in
    (All (λ rule. rule.id ≢ "R1") listed
      → (first log ≡ some (created (map_create_incident_rule outage "S1"))) × All IsNoUpdate log)
    × ((¬ All (λ rule. rule.id ≢ "R1") listed)
        → (first log ≡ some (updated (map_update_incident_rule outage "S1" "R1")))
          × All IsNoCreate log)
reconcile_rule-writes_example =
    reconcile_rule-writes (fixed outage) key outage tt "S1" listed refl resolved refl

unresolved : (resolve_service_id (fixed orphan) orphan tt).0 ≡ err service_ref_unspecified
unfolding resolve_service_id
unresolved = refl

unresolved_run : reconcile (fixed orphan) key tt ≡ (err service_ref_unspecified, tt)
unfolding reconcile resolve_service_id
unresolved_run = refl

-- The rule that has the id of the status is updated, though it is not the first.
update : reconcile (traced (fixed outage)) key (tt, []) ≡ (
  ok five_minutes,
  (
    tt,
    updated (map_update_incident_rule outage "S1" "R1")
        ∷ status_written (record outage {
          status = record { rule_id = "R1"; status = "Active"; last_synced_time = pos 7 };
        })
        ∷ [],
  ),
)
unfolding reconcile resolve_service_id find_rule string_eq
update = refl

map_incident_rule_roundtrip_example :
    let q = map_create_incident_rule outage "S1" in
    let u = map_update_incident_rule outage "S1" "R1" in
    (read_create outage.spec.service_ref q ≡ outage.spec)
    × (read_update outage.spec.service_ref u ≡ outage.spec)
    × (q.service_id ≡ "S1")
    × (u.service_id ≡ "S1")
    × (u.incident_rule_id ≡ "R1")
map_incident_rule_roundtrip_example = map_incident_rule_roundtrip outage "S1" "R1"

abbrev unwritten : World
unwritten = record {
  resource = record outage {
    status = record { rule_id = ""; status = ""; last_synced_time = pos 0 };
  };
  rules = record { id = "R0" } ∷ [];
}

abbrev written : World
written = record {
  resource = record outage {
    status = record { rule_id = "R9"; status = "Active"; last_synced_time = pos 7 };
  };
  rules = record { id = "R9" } ∷ record { id = "R0" } ∷ [];
}

-- A rule is created beside the one that is there.
addition : reconcile (memory shop) key unwritten ≡ (ok five_minutes, written)
unfolding reconcile resolve_service_id find_rule string_eq key_eq
addition = refl

reconcile_rule_once_example :
    All IsNoCreate (reconcile (traced (memory shop)) key (written, [])).1.1
unfolding key_eq string_eq
reconcile_rule_once_example =
    reconcile_rule_once (memory shop) (memory-IsLawful shop) unwritten.resource unwritten
      {w' = written} {res = five_minutes} refl addition
