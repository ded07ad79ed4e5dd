-- ===== src/Team/Steps.antt =====
-- What each step of a reconciliation leaves in a lawful world.
use opsgenie_operator.Prelude.{String, false, ◌≡◌, ◌≢◌, refl, ◌∙◌, string_eq, arith}
use opsgenie_operator.Exec.{done, ok, five_minutes}
use opsgenie_operator.Exec.Laws.{call-eq-ok, call-bind-eq-ok}
use opsgenie_operator.Api.Team.{OpsgenieTeam}
use opsgenie_operator.Opsgenie.Team.{GetTeamResult}
use opsgenie_operator.Team.Members.{is_update_required, is_members_update_required}
use opsgenie_operator.Team.Reconcile.{
  OpsgenieTeamReconciler, reconcile, record_team_id, update_team, update_team_members,
  metadata_request, members_request, activate, stamp, write_status,
}
use opsgenie_operator.Team.Lawful.{IsLawful, resource_at, team_named, patch}

-- The resource and Opsgenie's team agree.
pub record IsSynced (cr : OpsgenieTeam) (t : GetTeamResult) : Type 0 where
  pub known : t.id ≢ ""
  pub recorded : cr.status.team_id ≡ t.id
  pub metadata_kept : is_update_required cr t ≡ false
  pub members_kept : is_members_update_required cr t ≡ false

-- A step that writes only the status keeps the rest of the resource.
pub record Keeps (cr cr' : OpsgenieTeam) : Type 0 where
  pub spec_kept : cr'.spec ≡ cr.spec
  pub metadata_kept : cr'.metadata ≡ cr.metadata

module _ {W : Type 0} (r : OpsgenieTeamReconciler W) where
  -- The world holds this resource under its key, and this team under the resource's name.
  pub record Holds (cr : OpsgenieTeam) (t : GetTeamResult) (w : W) : Type 0 where
    pub stored : resource_at r cr.metadata w ≡ done cr
    pub found : team_named r cr.spec.name w ≡ done t

module _ {W : Type 0} (r : OpsgenieTeamReconciler W) (laws : IsLawful r) where
  open r use {client, opsgenie_client, now}

  -- In a world where both agree, a reconciliation changes nothing.
  pub reconcile_idle :
      (cr : OpsgenieTeam) (t : GetTeamResult) (w : W)
      → Holds r cr t w
      → IsSynced cr t
      → reconcile r cr.metadata w ≡ (ok five_minutes, w)
  unfolding reconcile
  reconcile_idle cr t w h s =
      ground (arith, laws.get_quiet cr.metadata w, laws.get_team_quiet cr.spec.name w)

  write_status-Holds :
      (cr : OpsgenieTeam) (t : GetTeamResult) {cr' : OpsgenieTeam} {w w' : W}
      → team_named r cr.spec.name w ≡ done t
      → write_status r cr w ≡ (ok cr', w')
      → (cr' ≡ cr) × Holds r cr t w'
  write_status-Holds cr t {w = w} found e =
      let written = call-eq-ok (client.update_status cr) e in
      (
        laws.status_answer cr written,
        record {
          stored = laws.status_stored cr written;
          found = laws.status_team cr written cr.spec.name ∙ found;
        },
      )

  pub record_created :
      (cr : OpsgenieTeam) (t : GetTeamResult) {cr' : OpsgenieTeam} {w w' : W} (id : String)
      → team_named r cr.spec.name w ≡ done t
      → record_team_id r cr id w ≡ (ok cr', w')
      → Holds r cr' t w' × Keeps cr cr' × (cr'.status.team_id ≡ id)
  unfolding record_team_id
  record_created cr t {w = w} id found e =
      let (same, holds) =
        write_status-Holds (activate cr id (now w).0) t (laws.team-now _ w ∙ found) e in
      (rw same holds, record { spec_kept = rw same; metadata_kept = rw same }, rw same)

  pub record_team_id-Holds :
      (cr : OpsgenieTeam) (t : GetTeamResult) {cr' : OpsgenieTeam} {w w' : W} (id : String)
      → Holds r cr t w
      → record_team_id r cr id w ≡ (ok cr', w')
      → Holds r cr' t w' × Keeps cr cr' × (cr'.status.team_id ≡ id)
  record_team_id-Holds cr t id h e = record_created cr t id h.found e

  pub update_team-Holds :
      (cr : OpsgenieTeam) (t : GetTeamResult) {cr' : OpsgenieTeam} {w w' : W}
      → Holds r cr t w
      → update_team r cr t.id w ≡ (ok cr', w')
      → Holds r cr' (patch (metadata_request cr t.id) t) w'
        × Keeps cr cr'
        × (cr'.status.team_id ≡ cr.status.team_id)
  unfolding update_team
  update_team-Holds cr t {w = w} h e =
      let (_, v, updated, rest) =
        call-bind-eq-ok (opsgenie_client.update (metadata_request cr t.id)) _ e in
      let found = laws.update_stored (metadata_request cr t.id) cr.spec.name h.found refl updated in
      let (same, holds) =
        write_status-Holds (stamp cr (now v).0) (patch (metadata_request cr t.id) t)
          (laws.team-now _ v ∙ ground arith) rest in
      (rw same holds, record { spec_kept = rw same; metadata_kept = rw same }, rw same)

  pub update_team_members-Holds :
      (cr : OpsgenieTeam) (t : GetTeamResult) {cr' : OpsgenieTeam} {w w' : W}
      → Holds r cr t w
      → update_team_members r cr t.id w ≡ (ok cr', w')
      → Holds r cr' (patch (members_request cr t.id) t) w'
        × Keeps cr cr'
        × (cr'.status.team_id ≡ cr.status.team_id)
  unfolding update_team_members
  update_team_members-Holds cr t {w = w} h e =
      let (_, v, updated, rest) =
        call-bind-eq-ok (opsgenie_client.update (members_request cr t.id)) _ e in
      let found = laws.update_stored (members_request cr t.id) cr.spec.name h.found refl updated in
      let (same, holds) =
        write_status-Holds (stamp cr (now v).0) (patch (members_request cr t.id) t)
          (laws.team-now _ v ∙ ground arith) rest in
      (rw same holds, record { spec_kept = rw same; metadata_kept = rw same }, rw same)
