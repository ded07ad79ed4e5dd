-- ===== src/Team/Updates.antt =====
-- What each of the three conditional writes of a reconciliation of a team leaves behind.
use mathlib.Core.List.{Nodup}
use opsgenie_operator.Prelude.{
  String, false, ◌≡◌, ◌≢◌, refl, ◌∙◌, inl, inr, List, [], ◌∷◌, ◌!=◌, string_eq, map, arith,
}
use opsgenie_operator.Exec.{ok}
use opsgenie_operator.Exec.Laws.{when-eq-ok}
use opsgenie_operator.Api.Team.{OpsgenieTeamMember, OpsgenieTeam}
use opsgenie_operator.Opsgenie.Team.{Member, GetTeamResult}
use opsgenie_operator.Team.Members.{
  map_team_members, is_update_required, is_members_update_required,
}
use opsgenie_operator.Team.Reconcile.{
  OpsgenieTeamReconciler, import_team, update_if_required, update_members_if_required,
  metadata_request, members_request, create_request,
}
use opsgenie_operator.Team.Steps.{
  Holds, Keeps, record_team_id-Holds, update_team-Holds, update_team_members-Holds,
}
use opsgenie_operator.Team.Comparison.{is_members_update_required-eq-false}
use mathlib.Core.List.Perm
use opsgenie_operator.Team.Lawful.{IsLawful, patch, created, sent_members}

-- A resource whose fields can all be sent by an update, which does not send empty ones.
pub record IsExpressible (cr : OpsgenieTeam) : Type 0 where
  pub described : cr.spec.description ≢ ""
  pub manned : cr.spec.members ≢ []
  pub distinct : Nodup (map (λ m. m.user_id) cr.spec.members)

pub IsExpressible-Keeps :
    {cr cr' : OpsgenieTeam} → IsExpressible cr → Keeps cr cr' → IsExpressible cr'
IsExpressible-Keeps x k = record {
  described = rw k.spec_kept x.described;
  manned = rw k.spec_kept x.manned;
  distinct = rw k.spec_kept x.distinct;
}

pub Keeps-trans : {a b c : OpsgenieTeam} → Keeps a b → Keeps b c → Keeps a c
Keeps-trans k l = record {
  spec_kept = l.spec_kept ∙ k.spec_kept;
  metadata_kept = l.metadata_kept ∙ k.metadata_kept;
}

sent_members-map_team_members :
    (members : List OpsgenieTeamMember) (old : List Member)
    → members ≢ []
    → sent_members (map_team_members members) old ≡ map_team_members members
unfolding map_team_members
sent_members-map_team_members [] old h = absurd (h refl)
sent_members-map_team_members (m ∷ members) old h = refl

-- The members that an update has sent need no further update.
members_settled :
    (cr : OpsgenieTeam) (t : GetTeamResult) (cr' : OpsgenieTeam)
    → IsExpressible cr
    → cr'.spec ≡ cr.spec
    → is_members_update_required cr' (patch (members_request cr t.id) t) ≡ false
members_settled cr t cr' x same =
    (is_members_update_required-eq-false cr' _ (rw same x.distinct)).1
      (rw (same, sent_members-map_team_members cr.spec.members t.members x.manned) (Perm.refl _))

pub created_current :
    (cr cr' : OpsgenieTeam) (id : String)
    → Keeps cr cr'
    → is_update_required cr' (created (create_request cr) id) ≡ false
unfolding is_update_required
created_current cr cr' id k = rw k.spec_kept (ground arith)

pub members_same :
    (cr : OpsgenieTeam) (t t' : GetTeamResult)
    → t'.members ≡ t.members
    → is_members_update_required cr t ≡ false
    → is_members_update_required cr t' ≡ false
unfolding is_members_update_required
members_same cr t t' same h = rw same h

module _ {W : Type 0} (r : OpsgenieTeamReconciler W) (laws : IsLawful r) where
  open r use {client, opsgenie_client, now}

  pub record_step :
      (cr : OpsgenieTeam) (t : GetTeamResult) {cr' : OpsgenieTeam} {w w' : W}
      → Holds r cr t w
      → import_team r cr t w ≡ (ok cr', w')
      → Holds r cr' t w' × Keeps cr cr' × (cr'.status.team_id ≡ t.id)
  record_step cr t h e = elim (when-eq-ok (cr.status.team_id != t.id) _ cr e) [
    | inl (stale, ran) ↦ record_team_id-Holds r laws cr t t.id h ran
    | inr (fresh, same, still) ↦ (
      rw (same, still) h,
      rw same (record { spec_kept = refl; metadata_kept = refl }),
      rw same (ground arith),
    )
  ]

  pub metadata_step :
      (cr : OpsgenieTeam) (t : GetTeamResult) {cr' : OpsgenieTeam} {w w' : W}
      → IsExpressible cr
      → Holds r cr t w
      → update_if_required r cr t w ≡ (ok cr', w')
      → (t' : GetTeamResult) × Holds r cr' t' w'
        × Keeps cr cr'
        × (cr'.status.team_id ≡ cr.status.team_id)
        × (t'.id ≡ t.id)
        × (t'.members ≡ t.members)
        × (is_update_required cr' t' ≡ false)
  unfolding is_update_required
  metadata_step cr t {w} x h e = elim (when-eq-ok (is_update_required cr t) _ cr e) [
    | inl (stale, ran) ↦
        let (holds, keeps, id_kept) = update_team-Holds r laws cr t h ran in
        (
          patch (metadata_request cr t.id) t,
          holds,
          keeps,
          id_kept,
          refl,
          refl,
          rw keeps.spec_kept (ground (arith, laws.team_name cr.spec.name w h.found)),
        )
    | inr (fresh, same, still) ↦ (
      t,
      rw (same, still) h,
      rw same (record { spec_kept = refl; metadata_kept = refl }),
      rw same refl,
      refl,
      refl,
      rw same fresh,
    )
  ]

  pub members_step :
      (cr : OpsgenieTeam) (t t' : GetTeamResult) {cr' : OpsgenieTeam} {w w' : W}
      → IsExpressible cr
      → Holds r cr t' w
      → t'.id ≡ t.id
      → t'.members ≡ t.members
      → is_update_required cr t' ≡ false
      → update_members_if_required r cr t w ≡ (ok cr', w')
      → (t'' : GetTeamResult) × Holds r cr' t'' w'
        × Keeps cr cr'
        × (cr'.status.team_id ≡ cr.status.team_id)
        × (t''.id ≡ t.id)
        × (is_update_required cr' t'' ≡ false)
        × (is_members_update_required cr' t'' ≡ false)
  unfolding is_update_required
  members_step cr t t' x h same_id same_members kept e =
      elim (when-eq-ok (is_members_update_required cr t) _ cr e) [
        | inl (stale, ran) ↦
            let (holds, keeps, id_kept) =
              update_team_members-Holds r laws cr t' h (rw same_id ran) in
            (
              patch (members_request cr t'.id) t',
              holds,
              keeps,
              id_kept,
              same_id,
              rw keeps.spec_kept (ground arith),
              members_settled cr t' _ x keeps.spec_kept,
            )
        | inr (fresh, same, still) ↦ (
          t',
          rw (same, still) h,
          rw same (record { spec_kept = refl; metadata_kept = refl }),
          rw same refl,
          same_id,
          rw same kept,
          rw same (members_same cr t t' same_members fresh),
        )
      ]
