-- ===== src/Team/Trace.antt =====
-- Which writes a reconciliation makes, and how it ends.
use opsgenie_operator.Prelude.{
  ◌≡◌, ◌≢◌, inl, inr, some, [], List, Option, if◌then◌else◌, All, ◌!=◌, string_eq, arith,
  Bool-cases,
}
use opsgenie_operator.Exec.{
  Reply, done, failed, ApiError, remote, Outcome, ok, err, Result, five_minutes, no_requeue,
}
use opsgenie_operator.Exec.Trace.{Traced, quiet, noted, judged, Stops, first}
use opsgenie_operator.Kube.{ObjectKey}
use opsgenie_operator.Api.Team.{OpsgenieTeam}
use opsgenie_operator.Opsgenie.Team.{GetTeamResult, CreateTeamRequest, UpdateTeamRequest}
use opsgenie_operator.Team.Lawful.{by_name}
use opsgenie_operator.Team.Reconcile.{
  OpsgenieTeamReconciler, reconcile, sync, sync_existing, create_missing, create_request,
}

pub data Write : Type 0 where
  created : CreateTeamRequest → Write
  updated : UpdateTeamRequest → Write
  status_written : OpsgenieTeam → Write

abbrev pub IsNoCreate : Write → Type 0
IsNoCreate (created q) = ⊥
IsNoCreate _ = Unit

-- The same reconciler, over a world that keeps a record of the writes.
abbrev pub traced :
    {W : Type 0} → OpsgenieTeamReconciler W → OpsgenieTeamReconciler (Traced W Write)
traced r = record {
  client = record {
    get = λ k. quiet (r.client.get k);
    update_status = λ c. noted (status_written c) (r.client.update_status c);
  };
  opsgenie_client = record {
    get = λ q. quiet (r.opsgenie_client.get q);
    create = λ q. noted (created q) (r.opsgenie_client.create q);
    update = λ q. noted (updated q) (r.opsgenie_client.update q);
  };
  now = quiet r.now;
}

abbrev pub IsNoUpdate : Write → Type 0
IsNoUpdate (updated q) = ⊥
IsNoUpdate _ = Unit

-- The lookup found a team that has an id.
abbrev pub IsFound : Reply GetTeamResult → Type 0
IsFound (done t) = t.id ≢ ""
IsFound (failed e) = ⊥

-- The same reconciler, over a world that records of each write whether it failed.
abbrev pub judged_writes :
    {W : Type 0} → OpsgenieTeamReconciler W → OpsgenieTeamReconciler (Traced W (Option ApiError))
judged_writes r = record {
  client = record {
    get = λ k. quiet (r.client.get k);
    update_status = λ c. judged (r.client.update_status c);
  };
  opsgenie_client = record {
    get = λ q. quiet (r.opsgenie_client.get q);
    create = λ q. judged (r.opsgenie_client.create q);
    update = λ q. judged (r.opsgenie_client.update q);
  };
  now = quiet r.now;
}

-- How a reconciliation ends, by the answer of the read and the record of the writes.
abbrev pub EndsAs : Reply OpsgenieTeam → List (Option ApiError) → Outcome Result → Type 0
EndsAs (done cr) log end = Stops (ok five_minutes) log end
EndsAs (failed e) log end =
    (log ≡ []) × (end ≡ (if e.not_found then ok no_requeue else err (remote e)))

module _ {W : Type 0} (r : OpsgenieTeamReconciler W) where
  sync_existing-IsNoCreate :
      (cr : OpsgenieTeam) (t : GetTeamResult) (w : W)
      → All IsNoCreate (sync_existing (traced r) cr t (w, [])).1.1
  unfolding sync_existing
  sync_existing-IsNoCreate cr t w = ground arith

  create_missing-writes :
      (cr : OpsgenieTeam) (w : W)
      → let log = (create_missing (traced r) cr (w, [])).1.1 in
        (first log ≡ some (created (create_request cr))) × All IsNoUpdate log
  unfolding create_missing
  create_missing-writes cr w = ground arith

  sync-writes :
      (cr : OpsgenieTeam) (found : Reply GetTeamResult) (w : W)
      → let log = (sync (traced r) cr found (w, [])).1.1 in
        (IsFound found → All IsNoCreate log)
        × ((¬ IsFound found)
            → (first log ≡ some (created (create_request cr))) × All IsNoUpdate log)
  unfolding sync
  sync-writes cr (failed e) w = (λ f. absurd f, λ n. create_missing-writes cr w)
  sync-writes cr (done t) w = elim (Bool-cases (t.id != "")) [
    | inl known ↦ rw known (λ f. sync_existing-IsNoCreate cr t w, λ n. absurd (n (ground arith)))
    | inr unknown ↦ rw unknown (λ f. absurd (f (ground arith)), λ n. create_missing-writes cr w)
  ]

  -- Whatever the two APIs answer: if the lookup by name finds a team with an id, then no team is
  -- created; if it finds none, or fails for any reason, then the first write is the creation of a
  -- team from the resource, and no team is updated.
  pub reconcile_team-writes :
      (req : ObjectKey) (cr : OpsgenieTeam) (w : W)
      → (r.client.get req w).0 ≡ done cr
      → let found = (r.opsgenie_client.get (by_name cr.spec.name) (r.client.get req w).1).0 in
        let log = (reconcile (traced r) req (w, [])).1.1 in
        (IsFound found → All IsNoCreate log)
        × ((¬ IsFound found)
            → (first log ≡ some (created (create_request cr))) × All IsNoUpdate log)
  unfolding reconcile
  reconcile_team-writes req cr w h = rw h (sync-writes cr _ _)

  -- A reconciliation makes no write after one that fails, be it of Opsgenie or of a status, and
  -- returns the error of that write; if none fails, it asks to be called again in five minutes. If the
  -- resource is missing, it writes nothing and asks for nothing, and if it cannot be read for another
  -- reason, it writes nothing and returns that error.
  pub reconcile_team-EndsAs :
      (req : ObjectKey) (w : W)
      → let end = reconcile (judged_writes r) req (w, []) in
        EndsAs (r.client.get req w).0 end.1.1 end.0 × ((reconcile r req w).0 ≡ end.0)
  unfolding reconcile sync sync_existing create_missing
  reconcile_team-EndsAs req w = ground arith
