-- ===== src/Escalation/Convergence.antt =====
-- A reconciliation of an escalation that succeeds leaves nothing to do for the next one.
use mathlib.Core.Path.{subst}
use opsgenie_operator.Prelude.{
  String, true, ◌≡◌, ◌≢◌, refl, sym, ap, ◌∙◌, inl, inr, List, some, ◌!=◌, string_eq, if◌then◌else◌,
  arith, Bool-cases,
}
use opsgenie_operator.Exec.{Reply, done, failed, ok, pure, ◌>>=◌, Result, five_minutes}
use opsgenie_operator.Exec.Laws.{call-bind-eq-ok, when-eq-ok, on_ok, >>=-assoc}
use opsgenie_operator.Api.Escalation.{OpsgenieEscalation}
use opsgenie_operator.Opsgenie.Escalation.{Escalation, Rule}
use opsgenie_operator.Escalation.Reconciler.{OpsgenieEscalationReconciler}
use opsgenie_operator.Escalation.Compare.{is_update_required}
use opsgenie_operator.Escalation.Rules.{resolve_team_id, map_escalation_rules}
use opsgenie_operator.Escalation.Reconcile.{
  reconcile, find_existing, after_get_by_id, after_get_by_name, write, update_existing,
  update_escalation, record_escalation_id, resolve, activate, stamp, update_request, by_id, by_name,
}
use opsgenie_operator.Escalation.Lawful.{IsLawful, resource_at, escalation_at, patch}
use opsgenie_operator.Escalation.Settled.{
  IsExpressible, Keeps, updated_current, resolve_team_id-quiet, map_escalation_rules-quiet,
  map_escalation_rules-IsSent, reconcile_settled,
}
use opsgenie_operator.Escalation.Steps.{
  Refers, Refers-Keeps, SameReferences-trans, write-Stamped, Reached, settled_by,
  create_missing-Reached,
}

module _ {W : Type 0} (r : OpsgenieEscalationReconciler W) (laws : IsLawful r) where
  open r use {client, opsgenie_client, now}

  update_escalation-Reached :
      (cr c : OpsgenieEscalation) (x : Escalation) (team_id : String) (rules : List Rule) (w : W)
      {w' : W} {c' : OpsgenieEscalation}
      → IsExpressible cr
      → Refers r laws cr team_id rules w
      → Keeps cr c
      → c.status.escalation_id ≡ x.id
      → x.id ≢ ""
      → escalation_at r (by_id x.id) w ≡ done x
      → update_escalation r c x.id team_id rules w ≡ (ok c', w')
      → Reached r laws cr w'
  unfolding update_escalation
  update_escalation-Reached cr c x team_id rules w {w'} ex f k same_id known found e =
      let q = update_request cr x.id team_id rules in
      let same_request : update_request c x.id team_id rules ≡ q = rw k.spec_kept refl in
      let (u, v, updated, rest) =
        call-bind-eq-ok (opsgenie_client.update q) _ (rw same_request at e) in
      let s = write-Stamped r laws (stamp c) rest in
      let keeps : Keeps cr (stamp c s.time) = record {
        spec_kept = k.spec_kept;
        metadata_kept = k.metadata_kept;
      } in
      settled_by r laws cr (stamp c s.time) (patch laws.answered q x) team_id rules w w' f
        (SameReferences-trans r laws (laws.update_kept q updated) s.same) keeps s.stored
        (rw same_id known)
        (rw same_id (s.escalations (by_id x.id) ∙ laws.update_stored q found updated))
        (updated_current laws.answered cr _ x.id team_id rules x laws.answer ex f.sent keeps)

  -- `stored` is the resource as it is in the world, `c` as it is in the reconciler.
  update_existing-Reached :
      (cr stored c : OpsgenieEscalation) (x : Escalation) (team_id : String) (rules : List Rule)
      (w : W) {w' : W} {res : Result}
      → IsExpressible cr
      → Refers r laws cr team_id rules w
      → Keeps cr stored
      → Keeps cr c
      → resource_at r stored.metadata w ≡ done stored
      → stored.status.escalation_id ≡ x.id
      → c.status.escalation_id ≡ x.id
      → x.id ≢ ""
      → escalation_at r (by_id x.id) w ≡ done x
      → update_existing r c x team_id rules w ≡ (ok res, w')
      → Reached r laws cr w'
  unfolding update_existing is_update_required
  update_existing-Reached cr stored c x team_id rules w ex f ks kc held stored_id same_id known
        found e =
      on_ok (if is_update_required c x then update_escalation r c x.id team_id rules else pure c) _
        e
        λ c' v ran last.
          subst (Reached r laws cr) (ap (λ y. y.1) last)
            (elim (when-eq-ok (is_update_required c x) _ c ran) [
              | inl (stale, wrote) ↦
                  update_escalation-Reached cr c x team_id rules w ex f kc same_id known found wrote
              | inr (fresh, same, kept) ↦ rw kept (
                  settled_by r laws cr stored x team_id rules w w f
                    (record { same_team = λ k. refl; same_schedule = λ k. refl }) ks held
                    (rw stored_id known) (rw stored_id found)
                    (rw (ks.spec_kept, ← kc.spec_kept) fresh))
            ])

  by_id-Reached :
      (cr : OpsgenieEscalation) (reply : Reply Escalation) (team_id : String) (rules : List Rule)
      (w : W) {w' : W} {res : Result}
      → IsExpressible cr
      → Refers r laws cr team_id rules w
      → resource_at r cr.metadata w ≡ done cr
      → cr.status.escalation_id ≢ ""
      → escalation_at r (by_id cr.status.escalation_id) w ≡ reply
      → (after_get_by_id r (resolve cr team_id) reply >>= λ (c, existing).
            write r c existing team_id rules)
          w
        ≡ (ok res, w')
      → Reached r laws cr w'
  unfolding after_get_by_id write
  by_id-Reached cr (failed x) team_id rules w ex f held known found e = cc
  by_id-Reached cr (done x) team_id rules w ex f held known found e =
      let same = laws.found_id cr.status.escalation_id w found in
      let has_id : (x.id != "") ≡ true = ground (arith, known) in
      update_existing-Reached cr cr (resolve cr team_id) x team_id rules w ex f
        (record { spec_kept = refl; metadata_kept = refl })
        (record { spec_kept = refl; metadata_kept = refl }) held (sym same) (sym same)
        (rw same known) (ap (λ id. escalation_at r (by_id id) w) same ∙ found) (rw has_id at e)

  by_name-Reached :
      (cr : OpsgenieEscalation) (reply : Reply Escalation) (team_id : String) (rules : List Rule)
      (w : W) {w' : W} {res : Result}
      → IsExpressible cr
      → Refers r laws cr team_id rules w
      → escalation_at r (by_name cr.spec.name) w ≡ reply
      → (after_get_by_name r (resolve cr team_id) reply >>= λ (c, existing).
            write r c existing team_id rules)
          w
        ≡ (ok res, w')
      → Reached r laws cr w'
  unfolding after_get_by_name write record_escalation_id
  by_name-Reached cr (failed x) team_id rules w ex f found e =
      create_missing-Reached r laws cr team_id rules w ex f e
  by_name-Reached cr (done x) team_id rules w ex f found e = elim (Bool-cases (x.id != "")) [
    | inl has_id ↦
        let flat =
          >>=-assoc (record_escalation_id r (resolve cr team_id) x.id) (λ c. pure (c, some x))
            (λ (c, existing). write r c existing team_id rules) w in
        on_ok (record_escalation_id r (resolve cr team_id) x.id)
          (λ c. write r c (some x) team_id rules) (sym flat ∙ rw has_id at e)
          λ c v ran rest.
            let s = write-Stamped r laws (activate (resolve cr team_id) x.id) ran in
            let at = activate (resolve cr team_id) x.id s.time in
            let keeps : Keeps cr at = record { spec_kept = refl; metadata_kept = refl } in
            let known : x.id ≢ "" = ground arith in
            let there =
              Refers-Keeps r laws cr cr team_id rules w v
                (record { spec_kept = refl; metadata_kept = refl }) s.same f in
            update_existing-Reached cr at at x team_id rules v ex there keeps keeps s.stored refl
              refl known
              (s.escalations (by_id x.id) ∙ laws.found_by_name cr.spec.name w found known)
              (rw (s.answer, has_id) at rest)
    | inr none_has ↦
        create_missing-Reached r laws cr team_id rules w ex f (rw none_has at (rw none_has at e))
  ]

  find_existing-Reached :
      (cr : OpsgenieEscalation) (team_id : String) (rules : List Rule) (w : W) {w' : W}
      {res : Result}
      → IsExpressible cr
      → Refers r laws cr team_id rules w
      → resource_at r cr.metadata w ≡ done cr
      → (find_existing r (resolve cr team_id) >>= λ (c, existing). write r c existing team_id rules)
          w
        ≡ (ok res, w')
      → Reached r laws cr w'
  unfolding find_existing
  find_existing-Reached cr team_id rules w ex f held e =
      elim (Bool-cases (cr.status.escalation_id != "")) [
        | inl known ↦
            by_id-Reached cr (escalation_at r (by_id cr.status.escalation_id) w) team_id rules w ex
              f held (ground arith) refl
              (rw (laws.get_escalation_quiet (by_id cr.status.escalation_id) w) at (rw known at e))
        | inr new ↦
            by_name-Reached cr (escalation_at r (by_name cr.spec.name) w) team_id rules w ex f refl
              (rw (laws.get_escalation_quiet (by_name cr.spec.name) w) at (rw new at e))
      ]

  reconcile-Reached :
      (cr : OpsgenieEscalation) (w : W) {w' : W} {res : Result}
      → IsExpressible cr
      → resource_at r cr.metadata w ≡ done cr
      → reconcile r cr.metadata w ≡ (ok res, w')
      → Reached r laws cr w'
  unfolding reconcile
  reconcile-Reached cr w ex held e =
      on_ok (resolve_team_id r cr) _ (rw (held, laws.get_quiet cr.metadata w) at e)
        λ team_id v owned rest.
          on_ok (map_escalation_rules r cr.metadata.namespace cr.spec.rules) _ rest
            λ rules v₂ mapped last.
              let here : w ≡ v = sym (resolve_team_id-quiet r laws cr w) ∙ ap (λ x. x.1) owned in
              let there : v ≡ v₂ =
                sym (map_escalation_rules-quiet r laws cr.metadata.namespace cr.spec.rules v)
                ∙ ap (λ x. x.1) mapped in
              find_existing-Reached cr team_id rules w ex
                (record {
                  owned = ap (λ x. x.0) owned;
                  mapped = rw (← here) at (ap (λ x. x.0) mapped);
                  sent =
                      map_escalation_rules-IsSent r laws cr.metadata.namespace cr.spec.rules v v₂
                        rules mapped;
                })
                held (rw (← here ∙ there) at last)

  -- In a lawful world, if a reconciliation of an escalation returns no error, and the escalation has
  -- a name, a description and rules, each of which has a condition, a notify type and a recipient
  -- of type user that is not given by an id, then the next one asks to be called again in five
  -- minutes and leaves the world as it is: it writes neither to Kubernetes nor to Opsgenie, and
  -- records no event. Opsgenie may answer names for the teams and schedules it is sent, so that
  -- nothing is said of rules that notify these.
  pub reconcile_escalation_twice :
      (cr : OpsgenieEscalation) (w : W) {w' : W} {res : Result}
      → IsExpressible cr
      → resource_at r cr.metadata w ≡ done cr
      → reconcile r cr.metadata w ≡ (ok res, w')
      → reconcile r cr.metadata w' ≡ (ok five_minutes, w')
  reconcile_escalation_twice cr w {w'} ex held e =
      let reached = reconcile-Reached cr w ex held e in
      subst (λ k. reconcile r k w' ≡ (ok five_minutes, w')) reached.keeps.metadata_kept
        (reconcile_settled r laws reached.resource reached.escalation w' reached.settled)
