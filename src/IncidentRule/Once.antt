-- ===== src/IncidentRule/Once.antt =====
-- An incident rule is created once.
use mathlib.Core.Path.{subst}
use opsgenie_operator.Prelude.{
  String, ◌≡◌, refl, sym, ap, ◌∙◌, List, [], Option, none, some, All, arith,
}
use opsgenie_operator.Exec.{done, ok, attempt, ◌>>=◌, Result}
use opsgenie_operator.Exec.Laws.{call-eq-ok, call-bind-eq-ok, on_ok}
use opsgenie_operator.Kube.{LocalObjectReference, Time, ObjectKey}
use opsgenie_operator.Api.IncidentRule.{OpsgenieIncidentRule}
use opsgenie_operator.Opsgenie.Service.{IncidentRuleResult}
use opsgenie_operator.IncidentRule.Requests.{map_create_incident_rule, map_update_incident_rule}
use opsgenie_operator.IncidentRule.Reconcile.{
  OpsgenieIncidentRuleReconciler, reconcile, resolve_service_id, service_of_ref, find_rule,
  write_rule, write_status, stamp, activate,
}
use opsgenie_operator.IncidentRule.Trace.{
  traced, IsNoCreate, find_rule-eq-none, reconcile_rule-writes,
}
use opsgenie_operator.IncidentRule.Lawful.{
  IsLawful, Lists, resource_at, service_at, rules_at, SameServices,
}

-- Nothing but the status differs.
record Keeps (cr cr' : OpsgenieIncidentRule) : Type 0 where
  spec_kept : cr'.spec ≡ cr.spec
  metadata_kept : cr'.metadata ≡ cr.metadata

find_rule-Lists :
    (id : String) (rules : List IncidentRuleResult) {rule : IncidentRuleResult}
    → find_rule id rules ≡ some rule
    → Lists id rules
find_rule-Lists id rules e none_has = let missed = (find_rule-eq-none id rules).1 none_has in cc

module _ {W : Type 0} (r : OpsgenieIncidentRuleReconciler W) (laws : IsLawful r) where
  open r use {client, service_client, opsgenie_client, now}

  resolve_service_id-quiet : (cr : OpsgenieIncidentRule) (w : W) → (resolve_service_id r cr w).1 ≡ w
  unfolding resolve_service_id
  resolve_service_id-quiet cr w = go cr.spec.service_ref
    where
      go :
          (ref : Option LocalObjectReference) → (service_of_ref r cr.metadata.namespace ref w).1 ≡ w
      go none = refl
      go (some ref) = ground (
        arith,
        laws.get_service_quiet (record { namespace = cr.metadata.namespace; name = ref.name }) w,
      )

  -- The resource is there, and Opsgenie lists its rule for its service.
  record IsTracked (cr : OpsgenieIncidentRule) (service_id : String) (w : W) : Type 0 where
    stored : resource_at r cr.metadata w ≡ done cr
    owned : (resolve_service_id r cr w).0 ≡ ok service_id
    rules : List IncidentRuleResult
    listed : rules_at r service_id w ≡ done rules
    has : Lists cr.status.rule_id rules

  -- Then a reconciliation creates no rule.
  IsTracked-create :
      (cr : OpsgenieIncidentRule) (service_id : String) (w : W)
      → IsTracked cr service_id w
      → All IsNoCreate (reconcile (traced r) cr.metadata (w, [])).1.1
  IsTracked-create cr service_id w t =
      let quiet = laws.get_quiet cr.metadata w in
      let owned : (resolve_service_id r cr (client.get cr.metadata w).1).0 ≡ ok service_id =
        rw quiet t.owned in
      let writes =
        reconcile_rule-writes r cr.metadata cr w service_id t.rules t.stored owned
          (rw (quiet, resolve_service_id-quiet cr w) t.listed) in
      (writes.1 t.has).1

  same_resolved :
      (cr cr' : OpsgenieIncidentRule) (w w' : W)
      → Keeps cr cr'
      → ((k : ObjectKey) → service_at r k w' ≡ service_at r k w)
      → (resolve_service_id r cr' w').0 ≡ (resolve_service_id r cr w).0
  unfolding resolve_service_id
  same_resolved cr cr' w w' k same = rw (k.spec_kept, k.metadata_kept) (go cr.spec.service_ref)
    where
      go :
          (ref : Option LocalObjectReference)
          → (service_of_ref r cr.metadata.namespace ref w').0
            ≡ (service_of_ref r cr.metadata.namespace ref w).0
      go none = refl
      go (some ref) =
          ground (arith, same (record { namespace = cr.metadata.namespace; name = ref.name }))

  -- A status is written with the time: it is stored, and the services and rules stay.
  write_stamped :
      (f : Time → OpsgenieIncidentRule) {c : OpsgenieIncidentRule} {w w' : W}
      → (attempt now >>= λ t. write_status r (f t)) w ≡ (ok c, w')
      → (t : Time) × (resource_at r (f t).metadata w' ≡ done (f t)) × SameServices r w w'
  write_stamped f {w = w} e =
      let t = (now w).0 in
      let written = call-eq-ok (client.update_status (f (now w).0)) e in
      let kept = laws.status_kept (f (now w).0) written in
      let before = laws.now_kept w in
      (
        (now w).0,
        laws.status_stored (f (now w).0) written,
        record {
          same_service = λ k. kept.same_service k ∙ before.same_service k;
          same_rules = λ id. kept.same_rules id ∙ before.same_rules id;
        },
      )

  -- What a write reaches: the resource but for its status, and its rule listed.
  record Reached (cr : OpsgenieIncidentRule) (service_id : String) (w : W) : Type 0 where
    resource : OpsgenieIncidentRule
    keeps : Keeps cr resource
    tracked : IsTracked resource service_id w

  write_rule-Reached :
      (cr : OpsgenieIncidentRule) (service_id : String) (rules : List IncidentRuleResult)
      (found : Option IncidentRuleResult) (w : W) {w' : W} {res : Result}
      → (resolve_service_id r cr w).0 ≡ ok service_id
      → rules_at r service_id w ≡ done rules
      → find_rule cr.status.rule_id rules ≡ found
      → write_rule r cr service_id found w ≡ (ok res, w')
      → Reached cr service_id w'
  unfolding write_rule map_create_incident_rule
  write_rule-Reached cr service_id rules (some rule) w owned listed has e =
      let (a, v, updated, rest) =
        call-bind-eq-ok
          (opsgenie_client.update_incident_rule
            (map_update_incident_rule cr service_id cr.status.rule_id))
          _ e in
      on_ok (attempt now >>= λ t. write_status r (stamp cr t)) _ rest λ c v₂ ran last.
        let (t, stored, same) = write_stamped (stamp cr) ran in
        let before =
          laws.update_kept (map_update_incident_rule cr service_id cr.status.rule_id) updated in
        let keeps : Keeps cr (stamp cr t) = record { spec_kept = refl; metadata_kept = refl } in
        subst (Reached cr service_id) (ap (λ x. x.1) last) (record {
          resource = stamp cr t;
          keeps = keeps;
          tracked = record {
            stored = stored;
            owned =
                same_resolved cr _ w v₂ keeps (λ k. same.same_service k ∙ before.same_service k)
                ∙ owned;
            rules = rules;
            listed = same.same_rules service_id ∙ before.same_rules service_id ∙ listed;
            has = find_rule-Lists cr.status.rule_id rules has;
          };
        })
  write_rule-Reached cr service_id rules none w owned listed has e =
      let (a, v, created, rest) =
        call-bind-eq-ok
          (opsgenie_client.create_incident_rule (map_create_incident_rule cr service_id)) _ e in
      on_ok (attempt now >>= λ t. write_status r (activate cr a.id t)) _ rest λ c v₂ ran last.
        let (t, stored, same) = write_stamped (activate cr a.id) ran in
        let (new, news, has_new) =
          laws.create_listed (map_create_incident_rule cr service_id) created in
        let keeps : Keeps cr (activate cr a.id t) = record {
          spec_kept = refl;
          metadata_kept = refl;
        } in
        subst (Reached cr service_id) (ap (λ x. x.1) last) (record {
          resource = activate cr a.id t;
          keeps = keeps;
          tracked = record {
            stored = stored;
            owned =
                same_resolved cr _ w v₂ keeps (λ k.
                  same.same_service k
                  ∙ laws.create_service (map_create_incident_rule cr service_id) created k)
                ∙ owned;
            rules = new;
            listed = same.same_rules service_id ∙ news;
            has = has_new;
          };
        })

  -- In a lawful world, once a reconciliation of an incident rule has returned no error, the next one
  -- creates no rule.
  pub reconcile_rule_once :
      (cr : OpsgenieIncidentRule) (w : W) {w' : W} {res : Result}
      → resource_at r cr.metadata w ≡ done cr
      → reconcile r cr.metadata w ≡ (ok res, w')
      → All IsNoCreate (reconcile (traced r) cr.metadata (w', [])).1.1
  unfolding reconcile
  reconcile_rule_once cr w {w'} {res} stored e =
      on_ok (resolve_service_id r cr) _ (rw (stored, laws.get_quiet cr.metadata w) at e)
        λ service_id v resolved rest.
          let (rules, v₂, listed, last) =
            call-bind-eq-ok
              (opsgenie_client.get_incident_rules (record { service_id = service_id })) _ rest in
          let here : w ≡ v = sym (resolve_service_id-quiet cr w) ∙ ap (λ x. x.1) resolved in
          let there : v ≡ v₂ = sym (laws.rules_quiet service_id v) ∙ ap (λ x. x.1) listed in
          let reached =
            write_rule-Reached cr service_id rules (find_rule cr.status.rule_id rules) w
              (ap (λ x. x.0) resolved) (rw (← here) at (ap (λ x. x.0) listed)) refl
              (rw (← here ∙ there) at last) in
          subst (λ k. All IsNoCreate (reconcile (traced r) k (w', [])).1.1)
            reached.keeps.metadata_kept
            (IsTracked-create reached.resource service_id w' reached.tracked)
