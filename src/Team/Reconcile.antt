-- ===== src/Team/Reconcile.antt =====
-- `OpsgenieTeamReconciler` and its `Reconcile`. The resource that the Go code mutates through a
-- pointer is passed on; after `Status().Update` it is what the server answered.
use opsgenie_operator.Prelude.{String, [], ◌!=◌, string_eq, if◌then◌else◌}
use opsgenie_operator.Exec.{
  Call, Reply, done, failed, Result, five_minutes, Proc, pure, attempt, call, ◌>>=◌, ◌>>◌,
  ignore_not_found,
}
use opsgenie_operator.Kube.{Kube, Time, ObjectKey}
use opsgenie_operator.Api.Team.{OpsgenieTeam}
use opsgenie_operator.Opsgenie.Og.{IdentifierType}
use opsgenie_operator.Opsgenie.Team as Sdk
use opsgenie_operator.Opsgenie.Team.{
  GetTeamResult, CreateTeamRequest, CreateTeamResult, UpdateTeamRequest,
}
use opsgenie_operator.Team.Members.{
  map_team_members, is_update_required, is_members_update_required,
}

pub record OpsgenieTeamReconciler (W : Type 0) : Type 0 where
  pub client : Kube W OpsgenieTeam
  pub opsgenie_client : Sdk.Client W
  pub now : Call W Time

abbrev pub stamp : OpsgenieTeam → Time → OpsgenieTeam
stamp cr now = record cr { status = record (cr.status) { last_synced_time = now } }

abbrev pub activate : OpsgenieTeam → String → Time → OpsgenieTeam
activate cr id now = record cr {
  status = record { team_id = id; status = "Active"; last_synced_time = now };
}

-- `updateReq` of `updateTeam`
abbrev pub metadata_request : OpsgenieTeam → String → UpdateTeamRequest
metadata_request cr id = record {
  id = id;
  name = cr.spec.name;
  description = cr.spec.description;
  members = [];
}

-- `updateMembersReq` of `updateTeamMembers`
abbrev pub members_request : OpsgenieTeam → String → UpdateTeamRequest
members_request cr id = record {
  id = id;
  name = "";
  description = "";
  members = map_team_members cr.spec.members;
}

-- `createReq` of `createTeam`
abbrev pub create_request : OpsgenieTeam → CreateTeamRequest
create_request cr = record {
  name = cr.spec.name;
  description = cr.spec.description;
  members = map_team_members cr.spec.members;
}

module _ {W : Type 0} (r : OpsgenieTeamReconciler W) where
  open r use {client, opsgenie_client, now}

  abbrev pub write_status : OpsgenieTeam → Proc W OpsgenieTeam
  write_status cr = call (client.update_status cr)

  unfoldable pub update_team : OpsgenieTeam → String → Proc W OpsgenieTeam
  update_team cr id = do
    call (opsgenie_client.update (metadata_request cr id))
    t ← attempt now
    write_status (stamp cr t)

  unfoldable pub update_team_members : OpsgenieTeam → String → Proc W OpsgenieTeam
  update_team_members cr id = do
    call (opsgenie_client.update (members_request cr id))
    t ← attempt now
    write_status (stamp cr t)

  unfoldable pub create_team : OpsgenieTeam → Proc W CreateTeamResult
  create_team cr = call (opsgenie_client.create (create_request cr))

  -- The status that records the id of the team in Opsgenie.
  unfoldable pub record_team_id : OpsgenieTeam → String → Proc W OpsgenieTeam
  record_team_id cr id = do t ← attempt now; write_status (activate cr id t)

  -- The three conditional writes of the branch for a team that Opsgenie has.
  abbrev pub import_team : OpsgenieTeam → GetTeamResult → Proc W OpsgenieTeam
  import_team cr existing =
      if cr.status.team_id != existing.id then record_team_id cr existing.id else pure cr

  abbrev pub update_if_required : OpsgenieTeam → GetTeamResult → Proc W OpsgenieTeam
  update_if_required cr existing =
      if is_update_required cr existing then update_team cr existing.id else pure cr

  abbrev pub update_members_if_required : OpsgenieTeam → GetTeamResult → Proc W OpsgenieTeam
  update_members_if_required cr existing =
      if is_members_update_required cr existing then update_team_members cr existing.id else pure cr

  unfoldable pub sync_existing : OpsgenieTeam → GetTeamResult → Proc W Result
  unfolding record_team_id update_team update_team_members
  sync_existing cr existing = do
    cr ← import_team cr existing
    cr ← update_if_required cr existing
    update_members_if_required cr existing
    pure five_minutes

  -- The branch for a team that it has not.
  unfoldable pub create_missing : OpsgenieTeam → Proc W Result
  unfolding record_team_id create_team
  create_missing cr = do created ← create_team cr; record_team_id cr created.id; pure five_minutes

  -- `err == nil && existingTeam.Id != ""`
  unfoldable pub sync : OpsgenieTeam → Reply GetTeamResult → Proc W Result
  unfolding sync_existing create_missing
  sync cr (done existing) =
      if existing.id != "" then sync_existing cr existing else create_missing cr
  sync cr (failed e) = create_missing cr

  unfoldable pub after_fetch : Reply OpsgenieTeam → Proc W Result
  unfolding sync
  after_fetch (failed e) = ignore_not_found e
  after_fetch (done cr) = do
    existing ← attempt (
        opsgenie_client.get
          (record { identifier_type = IdentifierType.name; identifier_value = cr.spec.name }))
    sync cr existing

  unfoldable pub reconcile : ObjectKey → Proc W Result
  unfolding after_fetch
  reconcile req = do found ← attempt (client.get req); after_fetch found
