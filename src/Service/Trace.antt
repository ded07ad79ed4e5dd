-- ===== src/Service/Trace.antt =====
-- Which writes a reconciliation of a service makes, and how it ends.
use opsgenie_operator.Prelude.{
  String, ◌≡◌, ◌≢◌, inl, inr, List, some, [], All, ◌!=◌, string_eq, arith, Bool-cases,
}
use opsgenie_operator.Exec.{Reply, done, failed, Error, ok, err, no_requeue}
use opsgenie_operator.Exec.Trace.{Traced, quiet, noted, first}
use opsgenie_operator.Kube.{ObjectKey}
use opsgenie_operator.Api.Service.{OpsgenieService}
use opsgenie_operator.Opsgenie.Service.{CreateRequest, CreateResult, UpdateRequest}
use opsgenie_operator.Service.Reconcile.{
  OpsgenieServiceReconciler, reconcile, after_resolve, resolve_team_id, update_existing,
  create_missing, create_request, resolve,
}

pub data Write : Type 0 where
  created : CreateRequest → Write
  updated : UpdateRequest → Write
  status_written : OpsgenieService → Write

abbrev pub IsNoCreate : Write → Type 0
IsNoCreate (created q) = ⊥
IsNoCreate _ = Unit

abbrev pub IsNoUpdate : Write → Type 0
IsNoUpdate (updated q) = ⊥
IsNoUpdate _ = Unit

-- The service that a resource asks for, owned by a team.
abbrev pub wanted : OpsgenieService → String → CreateRequest
wanted cr team_id = record {
  name = cr.spec.name;
  description = cr.spec.description;
  tags = cr.spec.tags;
  team_id = team_id;
}

-- A status that is written holds an id, and the team's id.
abbrev pub HasIds : String → Write → Type 0
HasIds team_id (status_written c) =
    (c.status.service_id ≢ "") × (c.status.resolved_team_id ≡ team_id)
HasIds team_id _ = Unit

-- A creation that succeeded gave an id.
abbrev pub HasNewId : Reply CreateResult → Type 0
HasNewId (done a) = a.id ≢ ""
HasNewId (failed e) = Unit

-- The same reconciler, over a world that keeps a record of the writes.
abbrev pub traced :
    {W : Type 0} → OpsgenieServiceReconciler W → OpsgenieServiceReconciler (Traced W Write)
traced r = record {
  client = record {
    get = λ k. quiet (r.client.get k);
    update_status = λ c. noted (status_written c) (r.client.update_status c);
  };
  team_client = record {
    get = λ k. quiet (r.team_client.get k);
    update_status = λ c. quiet (r.team_client.update_status c);
  };
  opsgenie_client = record {
    get = λ q. quiet (r.opsgenie_client.get q);
    create = λ q. noted (created q) (r.opsgenie_client.create q);
    update = λ q. noted (updated q) (r.opsgenie_client.update q);
    get_incident_rules = λ q. quiet (r.opsgenie_client.get_incident_rules q);
    create_incident_rule = λ q. quiet (r.opsgenie_client.create_incident_rule q);
    update_incident_rule = λ q. quiet (r.opsgenie_client.update_incident_rule q);
  };
  now = quiet r.now;
}

module _ {W : Type 0} (r : OpsgenieServiceReconciler W) where
  -- If the team of a service cannot be resolved, the reconciliation ends without an error and
  -- without a next time, and its only calls are the reads of the service and of its team.
  reconcile_service_unresolved :
      (req : ObjectKey) (cr : OpsgenieService) (w : W) {e : Error}
      → (r.client.get req w).0 ≡ done cr
      → let asked = resolve_team_id r cr (r.client.get req w).1 in
        asked.0 ≡ err e → reconcile r req w ≡ (ok no_requeue, asked.1)
  unfolding reconcile
  reconcile_service_unresolved req cr w h e = rw (h, e, after_resolve)

  resolve_team_id-traced :
      (cr : OpsgenieService) (w : W) (log : List Write)
      → resolve_team_id (traced r) cr (w, log)
        ≡ ((resolve_team_id r cr w).0, ((resolve_team_id r cr w).1, log))
  unfolding resolve_team_id
  resolve_team_id-traced cr w log = ground arith

  update_existing-writes :
      (cr : OpsgenieService) (w : W)
      → cr.status.service_id ≢ ""
      → let log = (update_existing (traced r) cr (w, [])).1.1 in
        All IsNoCreate log × All (HasIds cr.status.resolved_team_id) log
  unfolding update_existing
  update_existing-writes cr w h = ground arith

  create_missing-writes :
      ((q : CreateRequest) (v : W) → HasNewId (r.opsgenie_client.create q v).0)
      → (cr : OpsgenieService) (team_id : String) (w : W)
      → let log = (create_missing (traced r) cr team_id (w, [])).1.1 in
        (first log ≡ some (created (wanted cr team_id)))
        × All IsNoUpdate log
        × All (HasIds cr.status.resolved_team_id) log
  unfolding create_missing
  create_missing-writes ids cr team_id w = ground (arith, ids (create_request cr team_id) w)

  after_resolve-writes :
      ((q : CreateRequest) (v : W) → HasNewId (r.opsgenie_client.create q v).0)
      → (cr : OpsgenieService) (team_id : String) (w : W)
      → let log = (after_resolve (traced r) cr (ok team_id) (w, [])).1.1 in
        (cr.status.service_id ≢ "" → All IsNoCreate log)
        × (cr.status.service_id ≡ ""
            → (first log ≡ some (created (wanted cr team_id))) × All IsNoUpdate log)
        × All (HasIds team_id) log
  unfolding after_resolve
  after_resolve-writes ids cr team_id w = elim (Bool-cases (cr.status.service_id != "")) [
    | inl known ↦ rw known (
        let (a, b) = update_existing-writes (resolve cr team_id) w (ground arith) in
        (λ h. a, λ h. absurd (ground arith), b))
    | inr unknown ↦ rw unknown (
        let (a, b, c) = create_missing-writes ids (resolve cr team_id) team_id w in
        (λ h. absurd (h (ground arith)), λ h. (a, b), c))
  ]

  -- Let Opsgenie never answer a creation with an empty id, and let the team of a service be resolved.
  -- If the service's status has an id, then no service is created, and otherwise the first write is
  -- the creation of a service with the name, the description and the tags of the resource's spec,
  -- whose team is the resolved one, and none is updated. Every status that is written has an id of a
  -- service and the id of the team.
  pub reconcile_service-writes :
      ((q : CreateRequest) (v : W) → HasNewId (r.opsgenie_client.create q v).0)
      → (req : ObjectKey) (cr : OpsgenieService) (w : W) (team_id : String)
      → (r.client.get req w).0 ≡ done cr
      → (resolve_team_id r cr (r.client.get req w).1).0 ≡ ok team_id
      → let log = (reconcile (traced r) req (w, [])).1.1 in
        (cr.status.service_id ≢ "" → All IsNoCreate log)
        × (cr.status.service_id ≡ ""
            → (first log ≡ some (created (wanted cr team_id))) × All IsNoUpdate log)
        × All (HasIds team_id) log
  unfolding reconcile
  reconcile_service-writes ids req cr w team_id h e =
      rw (h, resolve_team_id-traced cr (r.client.get req w).1 [], e)
        (after_resolve-writes ids cr team_id _)
