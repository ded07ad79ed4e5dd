-- ===== src/Service/Convergence.antt =====
-- A reconciliation of a service that succeeds leaves nothing to do for the next one.
use mathlib.Core.Path.{subst}
use opsgenie_operator.Prelude.{
  String, ◌≡◌, ◌≢◌, refl, sym, ap, ◌∙◌, inl, inr, ◌!=◌, string_eq, if◌then◌else◌, arith, Bool-cases,
}
use opsgenie_operator.Exec.{
  done, Outcome, ok, err, panicked, pure, attempt, call, ◌>>=◌, Result, five_minutes,
}
use opsgenie_operator.Exec.Laws.{call-eq-ok, call-bind-eq-ok, when-eq-ok, on_ok}
use opsgenie_operator.Kube.{ObjectKey, Time}
use opsgenie_operator.Api.Service.{OpsgenieService}
use opsgenie_operator.Opsgenie.Service.{Service}
use opsgenie_operator.Service.Tags.{is_update_required}
use opsgenie_operator.Service.Reconcile.{
  OpsgenieServiceReconciler, reconcile, after_resolve, resolve_team_id, update_existing,
  create_missing, create_request, update_request, resolve, activate, stamp, write_status,
}
use opsgenie_operator.Service.Lawful.{IsLawful, resource_at, team_at, service_at, patch, made}
use opsgenie_operator.Service.Settled.{
  IsExpressible, Keeps, updated_current, created_current, resolve_team_id-quiet,
  resolve_team_id_same, IsSettled, reconcile_settled,
}

module _ {W : Type 0} (r : OpsgenieServiceReconciler W) (laws : IsLawful r) where
  open r use {client, team_client, opsgenie_client, now}

  -- A status is written with the time: it is stored, and the teams and services stay.
  write_stamped :
      (f : Time → OpsgenieService) {c : OpsgenieService} {w w' : W}
      → (attempt now >>= λ t. write_status r (f t)) w ≡ (ok c, w')
      → (t : Time) × (resource_at r (f t).metadata w' ≡ done (f t))
        × ((k : ObjectKey) → team_at r k w' ≡ team_at r k w)
        × ((id : String) → service_at r id w' ≡ service_at r id w)
  write_stamped f {w = w} e =
      let (t, v) = now w in
      let written = call-eq-ok (client.update_status (f (now w).0)) e in
      (
        (now w).0,
        laws.status_stored (f (now w).0) written,
        λ k. laws.status_team (f (now w).0) written k ∙ (laws.now_cluster w).same_team k,
        λ id. laws.status_service (f (now w).0) written id ∙ laws.now_service id w,
      )

  -- What a reconciliation that ran to its end has reached.
  pub record Reached (cr : OpsgenieService) (team_id : String) (w : W) : Type 0 where
    pub resource : OpsgenieService
    pub service : Service
    pub keeps : Keeps cr resource
    pub settled : IsSettled r laws resource team_id service w

  create_missing-Reached :
      (cr : OpsgenieService) (team_id : String) (w : W) {w' : W} {res : Result}
      → (resolve_team_id r cr w).0 ≡ ok team_id
      → create_missing r (resolve cr team_id) team_id w ≡ (ok res, w')
      → Reached cr team_id w'
  unfolding create_missing
  create_missing-Reached cr team_id w {w'} owned e =
      let (a, v, created, rest) =
        call-bind-eq-ok (opsgenie_client.create (create_request cr team_id)) _ e in
      on_ok (attempt now >>= λ t. write_status r (activate (resolve cr team_id) a.id t)) _ rest
        λ c v₂ ran last.
          let (t, stored, teams, services) =
            write_stamped (activate (resolve cr team_id) a.id) ran in
          let keeps : Keeps cr (activate (resolve cr team_id) a.id t) = record {
            spec_kept = refl;
            metadata_kept = refl;
          } in
          subst (Reached cr team_id) (ap (λ x. x.1) last) (record {
            resource = activate (resolve cr team_id) a.id t;
            service = made (create_request cr team_id);
            keeps = keeps;
            settled = record {
              stored = stored;
              owned =
                  resolve_team_id_same r laws cr _ w v₂ keeps (λ k.
                    teams k ∙ (laws.create_cluster (create_request cr team_id) created).same_team k)
                  ∙ owned;
              known = laws.create_id (create_request cr team_id) created;
              found = services a.id ∙ laws.create_stored (create_request cr team_id) created;
              current = created_current cr _ team_id keeps;
            };
          })

  update-Reached :
      (cr : OpsgenieService) (team_id : String) (s : Service) {w w' : W} {c : OpsgenieService}
      → IsExpressible cr
      → (resolve_team_id r cr w).0 ≡ ok team_id
      → cr.status.service_id ≢ ""
      → service_at r cr.status.service_id w ≡ done s
      → (call (opsgenie_client.update (update_request cr)) >>= λ _.
            attempt now >>= λ t. write_status r (stamp (resolve cr team_id) t))
          w
        ≡ (ok c, w')
      → Reached cr team_id w'
  update-Reached cr team_id s {w} {w'} x owned known found e =
      let (u, v, updated, rest) =
        call-bind-eq-ok (opsgenie_client.update (update_request cr)) _ e in
      let (t, stored, teams, services) = write_stamped (stamp (resolve cr team_id)) rest in
      let keeps : Keeps cr (stamp (resolve cr team_id) t) = record {
        spec_kept = refl;
        metadata_kept = refl;
      } in
      record {
        resource = stamp (resolve cr team_id) t;
        service = patch (update_request cr) s;
        keeps = keeps;
        settled = record {
          stored = stored;
          owned =
              resolve_team_id_same r laws cr _ w w' keeps
                (λ k. teams k ∙ (laws.update_cluster (update_request cr) updated).same_team k)
              ∙ owned;
          known = known;
          found =
              services cr.status.service_id ∙ laws.update_stored (update_request cr) found updated;
          current = updated_current cr _ s x keeps;
        };
      }

  update_existing-Reached :
      (cr : OpsgenieService) (team_id : String) (w : W) {w' : W} {res : Result}
      → IsExpressible cr
      → resource_at r cr.metadata w ≡ done cr
      → (resolve_team_id r cr w).0 ≡ ok team_id
      → cr.status.service_id ≢ ""
      → update_existing r (resolve cr team_id) w ≡ (ok res, w')
      → Reached cr team_id w'
  unfolding update_existing is_update_required
  update_existing-Reached cr team_id w x stored owned known e =
      let (s, v, got, rest) =
        call-bind-eq-ok (opsgenie_client.get (record { id = cr.status.service_id })) _ e in
      let found = ap (λ x. x.0) got in
      let still : w ≡ v = sym (laws.get_service_quiet cr.status.service_id w) ∙ ap (λ x. x.1) got in
      on_ok (if is_update_required cr s then _ else pure (resolve cr team_id)) _
        (rw (← still) at rest)
        λ c v₂ ran last.
          subst (Reached cr team_id) (ap (λ x. x.1) last)
            (elim (when-eq-ok (is_update_required cr s) _ (resolve cr team_id) ran) [
              | inl (stale, wrote) ↦ update-Reached cr team_id s x owned known found wrote
              | inr (fresh, same, kept) ↦ rw kept (record {
                resource = cr;
                service = s;
                keeps = record { spec_kept = refl; metadata_kept = refl };
                settled = record {
                  stored = stored;
                  owned = owned;
                  known = known;
                  found = found;
                  current = fresh;
                };
              })
            ])

  after_resolve-Reached :
      (cr : OpsgenieService) (w : W) (o : Outcome String) {w' : W}
      → IsExpressible cr
      → resource_at r cr.metadata w ≡ done cr
      → (resolve_team_id r cr w).0 ≡ o
      → after_resolve r cr o w ≡ (ok five_minutes, w')
      → (team_id : String) × Reached cr team_id w'
  unfolding after_resolve
  after_resolve-Reached cr w (err x) expressible stored owned e = absurd (ground arith)
  after_resolve-Reached cr w panicked expressible stored owned e = absurd (ground arith)
  after_resolve-Reached cr w (ok team_id) expressible stored owned e =
      elim (Bool-cases (cr.status.service_id != "")) [
        | inl known ↦ (
          team_id,
          update_existing-Reached cr team_id w expressible stored owned (ground arith)
              (rw known at e),
        )
        | inr new ↦ (team_id, create_missing-Reached cr team_id w owned (rw new at e))
      ]

  pub reconcile-Reached :
      (cr : OpsgenieService) (w : W) {w' : W}
      → IsExpressible cr
      → resource_at r cr.metadata w ≡ done cr
      → reconcile r cr.metadata w ≡ (ok five_minutes, w')
      → (team_id : String) × Reached cr team_id w'
  unfolding reconcile
  reconcile-Reached cr w x stored e =
      after_resolve-Reached cr w (resolve_team_id r cr w).0 x stored refl
        (rw (stored, laws.get_quiet cr.metadata w, resolve_team_id-quiet r laws cr w) at e)

  -- In a lawful world, if a reconciliation of a service whose fields can all be sent ends without
  -- an error and asks to be called again, then the next one does so too and leaves the world as it
  -- is: it writes neither to Kubernetes nor to Opsgenie.
  pub reconcile_service_twice :
      (cr : OpsgenieService) (w : W) {w' : W}
      → IsExpressible cr
      → resource_at r cr.metadata w ≡ done cr
      → reconcile r cr.metadata w ≡ (ok five_minutes, w')
      → reconcile r cr.metadata w' ≡ (ok five_minutes, w')
  reconcile_service_twice cr w {w'} x stored e =
      let (team_id, reached) = reconcile-Reached cr w x stored e in
      subst (λ k. reconcile r k w' ≡ (ok five_minutes, w')) reached.keeps.metadata_kept
        (reconcile_settled r laws reached.resource team_id reached.service w' reached.settled)
