-- ===== src/Escalation/Tests.antt =====
-- Runs of the escalation controller, and the theorems at concrete data.
use text.Mathlib.TextEquality.{eq_iff}
use opsgenie_operator.Prelude.{
  arith, true, ◌≡◌, ◌≢◌, ◌↔◌, refl, sym, ap, [], ◌∷◌, none, some, pos, to_uint32, All, Pointwise,
  string_eq, nat_eq,
}
use opsgenie_operator.Exec.{ok, err, remote, failed, ApiError, five_minutes}
use opsgenie_operator.Exec.Trace.{first}
use opsgenie_operator.Kube.{key_eq}
use opsgenie_operator.Escalation.Settled.{IsExpressible}
use opsgenie_operator.Escalation.Convergence.{reconcile_escalation_twice}
use opsgenie_operator.Escalation.Memory.{World, memory, memory-IsLawful}
use opsgenie_operator.Api.Escalation.{OpsgenieEscalation, OpsgenieEscalationRule}
use opsgenie_operator.Opsgenie.Escalation.{Rule}
use opsgenie_operator.Escalation.Compare.{compare_escalation_rules, is_update_required}
use opsgenie_operator.Escalation.CompareLaws.{compare_escalation_rules_sent}
use opsgenie_operator.Escalation.Rules.{
  Identity, build_rule, resolve_team_id, resolve_recipient_id, map_escalation_rules,
  build_recipient,
}
use opsgenie_operator.Escalation.RulesLaws.{
  Reaches, RuleConverts, resolve_recipient_id-eq-ok, map_escalation_rules-eq-ok,
}
use opsgenie_operator.Escalation.Reconcile.{
  reconcile, create_request, resolve, activate, failed_fetching,
}
use opsgenie_operator.Escalation.Trace.{
  created, status_written, warned, traced, lookup_request, IsNoCreate, IsNoUpdate, IsFound, wanted,
  reconcile_escalation-writes,
}
use opsgenie_operator.Escalation.CompareLaws.{SameRule, compare_escalation_rules-eq-true}
use opsgenie_operator.Escalation.Fixture.{key, on_call, page_rule, paging, sent_rule, oncall, fixed}

compare_escalation_rules-eq-true_example :
    (compare_escalation_rules (page_rule ∷ []) (sent_rule ∷ []) ≡ true)
    ↔ Pointwise SameRule (page_rule ∷ []) (sent_rule ∷ [])
compare_escalation_rules-eq-true_example =
    compare_escalation_rules-eq-true (page_rule ∷ []) (sent_rule ∷ [])

abbrev schedule_identity : Identity
schedule_identity = record { id = "D1"; username = "" }

built_rule : build_rule page_rule schedule_identity ≡ sent_rule
unfolding build_recipient to_uint32 string_eq
built_rule = refl

compare_escalation_rules_sent_example :
    (compare_escalation_rules (page_rule ∷ []) (sent_rule ∷ []) ≡ true)
    ↔ All (λ rule. rule.recipient.id ≡ "") (page_rule ∷ [])
compare_escalation_rules_sent_example =
    compare_escalation_rules_sent (page_rule ∷ []) (sent_rule ∷ [])
      ((schedule_identity, sym built_rule), tt)

resolve_recipient_id-eq-ok_example :
    ((resolve_recipient_id (fixed paging) on_call "ops" tt).0 ≡ ok schedule_identity)
    ↔ Reaches (fixed paging) "ops" on_call tt schedule_identity
resolve_recipient_id-eq-ok_example =
    resolve_recipient_id-eq-ok (fixed paging) "ops" on_call tt schedule_identity

rules_converted :
    map_escalation_rules (fixed paging) "ops" (page_rule ∷ []) tt ≡ (ok (sent_rule ∷ []), tt)
unfolding map_escalation_rules resolve_recipient_id build_recipient to_uint32 string_eq
rules_converted = refl

map_escalation_rules-eq-ok_example :
    Pointwise (RuleConverts (fixed paging) "ops") (page_rule ∷ []) (sent_rule ∷ [])
map_escalation_rules-eq-ok_example =
    map_escalation_rules-eq-ok (fixed paging) "ops" (page_rule ∷ []) tt tt (sent_rule ∷ [])
      rules_converted

owner_resolved : resolve_team_id (fixed paging) paging tt ≡ (ok "T1", tt)
unfolding resolve_team_id string_eq
owner_resolved = refl

reconcile_escalation-writes_example :
    let reply = ((fixed paging).opsgenie_client.get (lookup_request paging) tt).0 in
    let end = reconcile (traced (fixed paging)) key (tt, []) in
    (IsFound reply → All IsNoCreate end.1.1)
    × ((e : ApiError)
        → paging.status.escalation_id ≢ ""
        → reply ≡ failed e
        → (end.0 ≡ err (remote e))
          × (end.1.1 ≡ (warned (failed_fetching (resolve paging "T1") e) ∷ [])))
    × (paging.status.escalation_id ≡ ""
        → (¬ IsFound reply)
        → (first end.1.1 ≡ some (created (wanted paging "T1" (sent_rule ∷ []))))
          × All IsNoUpdate end.1.1)
reconcile_escalation-writes_example =
    reconcile_escalation-writes (fixed paging) key paging tt "T1" (sent_rule ∷ []) refl
      (ap (λ x. x.0) owner_resolved) (ap (λ x. x.0) rules_converted)

-- The escalation is created, and its id is recorded.
creation : reconcile (traced (fixed paging)) key (tt, []) ≡ (
  ok five_minutes,
  (
    tt,
    created (create_request paging "T1" (sent_rule ∷ []))
        ∷ status_written (activate (resolve paging "T1") "E1" (pos 7))
        ∷ [],
  ),
)
unfolding reconcile resolve_team_id map_escalation_rules resolve_recipient_id build_recipient
    to_uint32 string_eq
creation = refl

abbrev wake_ann : OpsgenieEscalationRule
wake_ann = record {
  condition = "if-not-acked";
  notify_type = "default";
  delay_min = pos 5;
  recipient = record {
    type = "user";
    id = "";
    username = "ann@x.org";
    schedule_ref = none;
    team_ref = none;
  };
}

abbrev ann_woken : Rule
ann_woken = record {
  condition = "if-not-acked";
  notify_type = "default";
  delay = 5;
  recipient = record { type = "user"; id = ""; name = ""; username = "ann@x.org" };
}

abbrev described : OpsgenieEscalation
described = record paging {
  spec = record (paging.spec) { description = "who is paged"; rules = wake_ann ∷ [] };
}

-- An escalation of the same name, with other rules, that is there before the resource.
abbrev before : World
before = record {
  resource = described;
  escalation = some (record { id = "E9"; name = "Paging"; description = "old"; rules = [] });
}

abbrev after : World
after = record {
  resource = record described {
    status = record {
      escalation_id = "E9";
      resolved_team_id = "T1";
      status = "Active";
      last_synced_time = pos 7;
    };
  };
  escalation =
      some (record {
        id = "E9";
        name = "Paging";
        description = "who is paged";
        rules = ann_woken ∷ [];
      });
}

-- It is imported by its name, and then updated.
imported : reconcile (memory oncall) key before ≡ (ok five_minutes, after)
unfolding reconcile resolve_team_id map_escalation_rules resolve_recipient_id build_recipient
    to_uint32 is_update_required compare_escalation_rules string_eq nat_eq key_eq
imported = refl

described-IsExpressible : IsExpressible described
described-IsExpressible = record {
  named = ground (arith, eq_iff "Paging" "");
  described = ground (arith, eq_iff "who is paged" "");
  ruled = λ e. cc;
  comparable = (
    record {
      conditioned = ground (arith, eq_iff "if-not-acked" "");
      notifying = ground (arith, eq_iff "default" "");
      for_user = refl;
      unnumbered = refl;
    },
    tt,
  );
}

reconcile_escalation_twice_example : reconcile (memory oncall) key after ≡ (ok five_minutes, after)
unfolding key_eq string_eq
reconcile_escalation_twice_example =
    reconcile_escalation_twice (memory oncall) (memory-IsLawful oncall) described before
      {w' = after} {res = five_minutes} described-IsExpressible refl imported
