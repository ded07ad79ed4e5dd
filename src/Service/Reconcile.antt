-- ===== src/Service/Reconcile.antt =====
-- `OpsgenieServiceReconciler`, `resolveTeamID` and `Reconcile`.
use opsgenie_operator.Prelude.{String, Option, none, some, ◌!=◌, string_eq, if◌then◌else◌}
use opsgenie_operator.Exec.{
  Call, Outcome, ok, err, panicked, Result, five_minutes, no_requeue, Proc, pure, raise, attempt,
  call, lift, ◌>>=◌, ◌>>◌, ignore_not_found, Reply, done, failed, team_unspecified, inspect,
}
use opsgenie_operator.Kube.{Kube, Time, ObjectKey, LocalObjectReference}
use opsgenie_operator.Api.Team.{OpsgenieTeam}
use opsgenie_operator.Api.Service.{OpsgenieService}
use opsgenie_operator.Opsgenie.Service as Sdk
use opsgenie_operator.Opsgenie.Service.{Service, CreateRequest, UpdateRequest}
use opsgenie_operator.Service.Tags.{is_update_required}

pub record OpsgenieServiceReconciler (W : Type 0) : Type 0 where
  pub client : Kube W OpsgenieService
  pub team_client : Kube W OpsgenieTeam
  pub opsgenie_client : Sdk.Client W
  pub now : Call W Time

abbrev pub stamp : OpsgenieService → Time → OpsgenieService
stamp cr now = record cr { status = record (cr.status) { last_synced_time = now } }

-- `serviceCR.Status.ResolvedTeamID = teamID`
abbrev pub resolve : OpsgenieService → String → OpsgenieService
resolve cr team_id = record cr { status = record (cr.status) { resolved_team_id = team_id } }

abbrev pub activate : OpsgenieService → String → Time → OpsgenieService
activate cr id now = record cr {
  status = record (cr.status) { service_id = id; status = "Active"; last_synced_time = now };
}

-- `updateReq`
abbrev pub update_request : OpsgenieService → UpdateRequest
update_request cr = record {
  id = cr.status.service_id;
  name = cr.spec.name;
  description = cr.spec.description;
  tags = cr.spec.tags;
}

-- `createReq`
abbrev pub create_request : OpsgenieService → String → CreateRequest
create_request cr team_id = record {
  name = cr.spec.name;
  description = cr.spec.description;
  tags = cr.spec.tags;
  team_id = team_id;
}

module _ {W : Type 0} (r : OpsgenieServiceReconciler W) where
  open r use {client, team_client, opsgenie_client, now}

  abbrev pub write_status : OpsgenieService → Proc W OpsgenieService
  write_status cr = call (client.update_status cr)

  -- The team named by `teamRef`, in the namespace of the resource.
  unfoldable pub team_of_ref : String → Option LocalObjectReference → Proc W String
  team_of_ref namespace none = raise team_unspecified
  team_of_ref namespace (some ref) = do
    team ← call (team_client.get (record { namespace = namespace; name = ref.name }))
    pure team.status.team_id

  unfoldable pub resolve_team_id : OpsgenieService → Proc W String
  unfolding team_of_ref
  resolve_team_id cr =
      if cr.spec.team_id != ""
      then pure cr.spec.team_id
      else team_of_ref cr.metadata.namespace cr.spec.team_ref

  -- The branch for a service whose id is in the status.
  unfoldable pub update_existing : OpsgenieService → Proc W Result
  update_existing cr = do
    existing ← call (opsgenie_client.get (record { id = cr.status.service_id }))
    (if is_update_required cr existing
        then (do
          call (opsgenie_client.update (update_request cr))
          t ← attempt now
          write_status (stamp cr t))
        else pure cr)
    pure five_minutes

  -- The branch for a service without an id.
  unfoldable pub create_missing : OpsgenieService → String → Proc W Result
  create_missing cr team_id = do
    created ← call (opsgenie_client.create (create_request cr team_id))
    t ← attempt now
    write_status (activate cr created.id t)
    pure five_minutes

  -- An error of `resolveTeamID` is logged and dropped: `return ctrl.Result{}, nil`.
  unfoldable pub after_resolve : OpsgenieService → Outcome String → Proc W Result
  unfolding update_existing create_missing
  after_resolve cr (err e) = pure no_requeue
  after_resolve cr panicked = lift panicked
  after_resolve cr (ok team_id) =
      if cr.status.service_id != ""
      then update_existing (resolve cr team_id)
      else create_missing (resolve cr team_id) team_id

  unfoldable pub after_fetch : Reply OpsgenieService → Proc W Result
  unfolding after_resolve
  after_fetch (failed e) = ignore_not_found e
  after_fetch (done cr) = do team_id ← inspect (resolve_team_id cr); after_resolve cr team_id

  unfoldable pub reconcile : ObjectKey → Proc W Result
  unfolding after_fetch
  reconcile req = do found ← attempt (client.get req); after_fetch found
