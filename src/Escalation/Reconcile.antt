-- ===== src/Escalation/Reconcile.antt =====
-- `updateEscalation`, `createEscalation` and `Reconcile`. `existing` stands for the pointer
-- `existingEscalation`, which is nil (`none`) after a failed lookup.
use Prim.Native.String.{◌++◌ as ◌<>◌}
use opsgenie_operator.Prelude.{String, List, Option, none, some, ◌!=◌, string_eq, if◌then◌else◌}
use opsgenie_operator.Exec.{
  ApiError, Reply, done, failed, remote, Result, five_minutes, Proc, pure, raise, attempt, call,
  ◌>>=◌, ◌>>◌, ignore_not_found,
}
use opsgenie_operator.Kube.{Time, ObjectKey}
use opsgenie_operator.Api.Escalation.{OpsgenieEscalation}
use opsgenie_operator.Opsgenie.Og.{IdentifierType}
use opsgenie_operator.Opsgenie.Escalation.{
  GetRequest, CreateRequest, UpdateRequest, CreateResult, Rule, Escalation,
}
use opsgenie_operator.Escalation.Compare.{is_update_required}
use opsgenie_operator.Escalation.Reconciler.{Event, OpsgenieEscalationReconciler}
use opsgenie_operator.Escalation.Rules.{resolve_team_id, map_escalation_rules}

abbrev pub stamp : OpsgenieEscalation → Time → OpsgenieEscalation
stamp cr now = record cr { status = record (cr.status) { last_synced_time = now } }

-- `escCR.Status.ResolvedTeamID = teamID`
abbrev pub resolve : OpsgenieEscalation → String → OpsgenieEscalation
resolve cr team_id = record cr { status = record (cr.status) { resolved_team_id = team_id } }

abbrev pub activate : OpsgenieEscalation → String → Time → OpsgenieEscalation
activate cr id now = record cr {
  status = record (cr.status) { escalation_id = id; status = "Active"; last_synced_time = now };
}

-- `updateReq` of `updateEscalation`
abbrev pub update_request : OpsgenieEscalation → String → String → List Rule → UpdateRequest
update_request cr id team_id rules = record {
  identifier_type = IdentifierType.id;
  identifier = id;
  name = cr.spec.name;
  description = cr.spec.description;
  rules = rules;
  owner_team = record { id = team_id; name = "" };
}

-- `createReq` of `createEscalation`
abbrev pub create_request : OpsgenieEscalation → String → List Rule → CreateRequest
create_request cr team_id rules = record {
  name = cr.spec.name;
  description = cr.spec.description;
  rules = rules;
  owner_team = record { id = team_id; name = "" };
}

abbrev pub by_id : String → GetRequest
by_id id = record { identifier_type = IdentifierType.id; identifier = id }

abbrev pub by_name : String → GetRequest
by_name name = record { identifier_type = IdentifierType.name; identifier = name }

abbrev pub failed_fetching : OpsgenieEscalation → ApiError → Event
failed_fetching cr e = record {
  about = cr;
  reason = "FailedFetching";
  message = "Failed to fetch escalation: " <> e.message;
}

abbrev pub failed_creation : OpsgenieEscalation → ApiError → Event
failed_creation cr e = record {
  about = cr;
  reason = "FailedCreation";
  message = "Failed to create escalation: " <> e.message;
}

module _ {W : Type 0} (r : OpsgenieEscalationReconciler W) where
  open r use {client, opsgenie_client, record_event, now}

  abbrev pub write_status : OpsgenieEscalation → Proc W OpsgenieEscalation
  write_status cr = call (client.update_status cr)

  unfoldable pub record_escalation_id : OpsgenieEscalation → String → Proc W OpsgenieEscalation
  record_escalation_id cr id = do t ← attempt now; write_status (activate cr id t)

  unfoldable pub update_escalation :
      OpsgenieEscalation → String → String → List Rule → Proc W OpsgenieEscalation
  update_escalation cr id team_id rules = do
    call (opsgenie_client.update (update_request cr id team_id rules))
    t ← attempt now
    write_status (stamp cr t)

  unfoldable pub after_create : OpsgenieEscalation → Reply CreateResult → Proc W Result
  unfolding record_escalation_id
  after_create cr (failed e) = do attempt (record_event (failed_creation cr e)); raise (remote e)
  after_create cr (done created) = do record_escalation_id cr created.id; pure five_minutes

  unfoldable pub create_missing : OpsgenieEscalation → String → List Rule → Proc W Result
  unfolding after_create
  create_missing cr team_id rules = do
    reply ← attempt (opsgenie_client.create (create_request cr team_id rules))
    after_create cr reply

  unfoldable pub update_existing :
      OpsgenieEscalation → Escalation → String → List Rule → Proc W Result
  unfolding update_escalation
  update_existing cr existing team_id rules = do
    (if is_update_required cr existing
        then update_escalation cr existing.id team_id rules
        else pure cr)
    pure five_minutes

  -- The lookup by the id of the status; its error ends the reconciliation.
  unfoldable pub after_get_by_id :
      OpsgenieEscalation → Reply Escalation → Proc W (OpsgenieEscalation × Option Escalation)
  after_get_by_id cr (failed e) = do attempt (record_event (failed_fetching cr e)); raise (remote e)
  after_get_by_id cr (done existing) = pure (cr, some existing)

  -- The lookup by name; its error is taken for a missing escalation.
  unfoldable pub after_get_by_name :
      OpsgenieEscalation → Reply Escalation → Proc W (OpsgenieEscalation × Option Escalation)
  unfolding record_escalation_id
  after_get_by_name cr (failed e) = pure (cr, none)
  after_get_by_name cr (done existing) = do
    cr ← (if existing.id != "" then record_escalation_id cr existing.id else pure cr)
    pure (cr, some existing)

  unfoldable pub find_existing :
      OpsgenieEscalation → Proc W (OpsgenieEscalation × Option Escalation)
  unfolding after_get_by_id after_get_by_name
  find_existing cr =
      if cr.status.escalation_id != ""
      then (do
        reply ← attempt (opsgenie_client.get (by_id cr.status.escalation_id))
        after_get_by_id cr reply)
      else (do
        reply ← attempt (opsgenie_client.get (by_name cr.spec.name))
        after_get_by_name cr reply)

  -- `existingEscalation != nil && existingEscalation.Escalation.Id != ""`
  unfoldable pub write : OpsgenieEscalation → Option Escalation → String → List Rule → Proc W Result
  unfolding update_existing create_missing
  write cr none team_id rules = create_missing cr team_id rules
  write cr (some existing) team_id rules =
      if existing.id != ""
      then update_existing cr existing team_id rules
      else create_missing cr team_id rules

  unfoldable pub after_fetch : Reply OpsgenieEscalation → Proc W Result
  unfolding find_existing write
  after_fetch (failed e) = ignore_not_found e
  after_fetch (done cr) = do
    team_id ← resolve_team_id r cr
    rules ← map_escalation_rules r cr.metadata.namespace cr.spec.rules
    (cr, existing) ← find_existing (resolve cr team_id)
    write cr existing team_id rules

  unfoldable pub reconcile : ObjectKey → Proc W Result
  unfolding after_fetch
  reconcile req = do found ← attempt (client.get req); after_fetch found
