-- ===== src/Team/Convergence.antt =====
-- A reconciliation that succeeds leaves nothing to do for the next one.
use mathlib.Core.List.{Nodup}
use opsgenie_operator.Prelude.{
  ◌≡◌, ◌≢◌, refl, sym, ap, ◌∙◌, inl, inr, ◌!=◌, string_eq, map, arith, Bool-cases,
}
use opsgenie_operator.Exec.{Reply, done, failed, ok, Result}
use opsgenie_operator.Exec.Laws.{call-eq-ok, on_ok}
use opsgenie_operator.Api.Team.{OpsgenieTeam}
use opsgenie_operator.Opsgenie.Team.{GetTeamResult}
use opsgenie_operator.Team.Reconcile.{
  OpsgenieTeamReconciler, import_team, update_if_required, update_members_if_required, reconcile,
  sync, sync_existing, create_missing, record_team_id, create_team, create_request,
}
use opsgenie_operator.Team.Steps.{IsSynced, Holds, Keeps, record_created}
use opsgenie_operator.Team.Comparison.{is_members_update_required-eq-false}
use mathlib.Core.List.Perm
use opsgenie_operator.Team.Lawful.{IsLawful, resource_at, team_named, created}
use opsgenie_operator.Team.Updates.{
  IsExpressible, IsExpressible-Keeps, Keeps-trans, created_current, record_step, metadata_step,
  members_step,
}

module _ {W : Type 0} (r : OpsgenieTeamReconciler W) (laws : IsLawful r) where
  open r use {client, opsgenie_client, now}

  -- What a reconciliation that returned no error has reached.
  pub record Reached (cr : OpsgenieTeam) (w : W) : Type 0 where
    pub resource : OpsgenieTeam
    pub team : GetTeamResult
    pub holds : Holds r resource team w
    pub keeps : Keeps cr resource
    pub synced : IsSynced resource team

  sync_existing-Reached :
      (cr : OpsgenieTeam) (t : GetTeamResult) {w w' : W} {res : Result}
      → IsExpressible cr
      → Holds r cr t w
      → t.id ≢ ""
      → sync_existing r cr t w ≡ (ok res, w')
      → Reached cr w'
  unfolding sync_existing
  sync_existing-Reached cr t x h known e = on_ok (import_team r cr t) _ e λ cr₁ w₁ e₁ rest₁.
      on_ok (update_if_required r cr₁ t) _ rest₁ λ cr₂ w₂ e₂ rest₂.
        on_ok (update_members_if_required r cr₂ t) _ rest₂ λ cr₃ w₃ e₃ rest₃.
          let (h₁, k₁, id₁) = record_step r laws cr t h e₁ in
          let (t₂, h₂, k₂, id₂, same_id, same_members, kept) =
            metadata_step r laws cr₁ t (IsExpressible-Keeps x k₁) h₁ e₂ in
          let (t₃, h₃, k₃, id₃, same_id₃, kept₃, settled) =
            members_step r laws cr₂ t t₂ (IsExpressible-Keeps (IsExpressible-Keeps x k₁) k₂) h₂
              same_id same_members kept e₃ in
          record {
            resource = cr₃;
            team = t₃;
            holds = rw (ap (λ r. r.1) (sym rest₃)) h₃;
            keeps = Keeps-trans k₁ (Keeps-trans k₂ k₃);
            synced = record {
              known = rw same_id₃ known;
              recorded = id₃ ∙ id₂ ∙ id₁ ∙ sym same_id₃;
              metadata_kept = kept₃;
              members_kept = settled;
            };
          }

  create_missing-Reached :
      (cr : OpsgenieTeam) (w : W) {w' : W} {res : Result}
      → Nodup (map (λ m. m.user_id) cr.spec.members)
      → create_missing r cr w ≡ (ok res, w')
      → Reached cr w'
  unfolding create_missing create_team
  create_missing-Reached cr w distinct e = on_ok (create_team r cr) _ e λ a w₁ e₁ rest₁.
      on_ok (record_team_id r cr a.id) _ rest₁ λ cr₂ w₂ e₂ rest₂.
        let t = created (create_request cr) a.id in
        let made = call-eq-ok (opsgenie_client.create (create_request cr)) e₁ in
        let (h₂, k₂, id₂) =
          record_created r laws cr t a.id (laws.create_stored (create_request cr) made) e₂ in
        record {
          resource = cr₂;
          team = t;
          holds = rw (ap (λ r. r.1) (sym rest₂)) h₂;
          keeps = k₂;
          synced = record {
            known = laws.create_id (create_request cr) made;
            recorded = id₂;
            metadata_kept = created_current cr cr₂ a.id k₂;
            members_kept =
                (is_members_update_required-eq-false cr₂ t (rw k₂.spec_kept distinct)).1
                  (rw k₂.spec_kept (Perm.refl _));
          };
        }

  sync-Reached :
      (cr : OpsgenieTeam) (found : Reply GetTeamResult) (w : W) {w' : W} {res : Result}
      → IsExpressible cr
      → resource_at r cr.metadata w ≡ done cr
      → team_named r cr.spec.name w ≡ found
      → sync r cr found w ≡ (ok res, w')
      → Reached cr w'
  unfolding sync
  sync-Reached cr (failed x) w ex stored named e = create_missing-Reached cr w ex.distinct e
  sync-Reached cr (done t) w ex stored named e = elim (Bool-cases (t.id != "")) [
    | inl known ↦
        sync_existing-Reached cr t ex (record { stored = stored; found = named }) (ground arith)
          (rw known at e)
    | inr unknown ↦ create_missing-Reached cr w ex.distinct (rw unknown at e)
  ]

  -- A reconciliation of a resource that exists, if it returns no error, reaches agreement.
  pub reconcile-Reached :
      (cr : OpsgenieTeam) (w : W) {w' : W} {res : Result}
      → IsExpressible cr
      → resource_at r cr.metadata w ≡ done cr
      → reconcile r cr.metadata w ≡ (ok res, w')
      → Reached cr w'
  unfolding reconcile
  reconcile-Reached cr w x stored e =
      sync-Reached cr (team_named r cr.spec.name w) w x stored refl
        (rw (stored, laws.get_quiet cr.metadata w, laws.get_team_quiet cr.spec.name w) at e)
