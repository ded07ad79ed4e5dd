-- ===== src/Service/Lawful.antt =====
-- What the service controller relies on in Kubernetes and in Opsgenie's service API: while nobody
-- else writes, a read has no effect and answers the same again, a status update stores what it is
-- given, `Create` makes a service that `Get` finds by its new id, and `Update` changes the fields
-- that are sent, an empty field not being sent.
use opsgenie_operator.Prelude.{String, ◌≡◌, ◌≢◌, List, [], ◌∷◌, ◌==◌, string_eq, if◌then◌else◌}
use opsgenie_operator.Exec.{Reply, done}
use opsgenie_operator.Kube.{ObjectKey}
use opsgenie_operator.Api.Team.{OpsgenieTeam}
use opsgenie_operator.Api.Service.{OpsgenieService}
use opsgenie_operator.Opsgenie.Service.{Service, CreateRequest, CreateResult, UpdateRequest}
use opsgenie_operator.Service.Reconcile.{OpsgenieServiceReconciler}

abbrev pub sent_tags : List String → List String → List String
sent_tags [] old = old
sent_tags (t ∷ new) old = t ∷ new

abbrev pub patch : UpdateRequest → Service → Service
patch q s = record {
  name = if q.name == "" then s.name else q.name;
  description = if q.description == "" then s.description else q.description;
  tags = sent_tags q.tags s.tags;
}

abbrev pub made : CreateRequest → Service
made q = record { name = q.name; description = q.description; tags = q.tags }

module _ {W : Type 0} (r : OpsgenieServiceReconciler W) where
  open r use {client, team_client, opsgenie_client, now}

  -- What the three reads answer in a world.
  abbrev pub resource_at : ObjectKey → W → Reply OpsgenieService
  resource_at k w = (client.get k w).0

  abbrev pub team_at : ObjectKey → W → Reply OpsgenieTeam
  team_at k w = (team_client.get k w).0

  abbrev pub service_at : String → W → Reply Service
  service_at id w = (opsgenie_client.get (record { id = id }) w).0

  -- The same resources and teams are there.
  pub record SameCluster (w w' : W) : Type 0 where
    pub same_resource : (k : ObjectKey) → resource_at k w' ≡ resource_at k w
    pub same_team : (k : ObjectKey) → team_at k w' ≡ team_at k w

  pub record IsLawful : Type 0 where
    pub get_quiet : (k : ObjectKey) (w : W) → (client.get k w).1 ≡ w
    pub get_team_quiet : (k : ObjectKey) (w : W) → (team_client.get k w).1 ≡ w
    pub get_service_quiet :
        (id : String) (w : W) → (opsgenie_client.get (record { id = id }) w).1 ≡ w
    pub now_cluster : (w : W) → SameCluster w (now w).1
    pub now_service : (id : String) (w : W) → service_at id (now w).1 ≡ service_at id w
    pub status_stored :
        (c : OpsgenieService) {c' : OpsgenieService} {w w' : W}
        → client.update_status c w ≡ (done c', w')
        → resource_at c.metadata w' ≡ done c
    pub status_team :
        (c : OpsgenieService) {c' : OpsgenieService} {w w' : W}
        → client.update_status c w ≡ (done c', w')
        → (k : ObjectKey) → team_at k w' ≡ team_at k w
    pub status_service :
        (c : OpsgenieService) {c' : OpsgenieService} {w w' : W}
        → client.update_status c w ≡ (done c', w')
        → (id : String) → service_at id w' ≡ service_at id w
    pub create_id :
        (q : CreateRequest) {a : CreateResult} {w w' : W}
        → opsgenie_client.create q w ≡ (done a, w')
        → a.id ≢ ""
    pub create_stored :
        (q : CreateRequest) {a : CreateResult} {w w' : W}
        → opsgenie_client.create q w ≡ (done a, w')
        → service_at a.id w' ≡ done (made q)
    pub create_cluster :
        (q : CreateRequest) {a : CreateResult} {w w' : W}
        → opsgenie_client.create q w ≡ (done a, w')
        → SameCluster w w'
    pub update_stored :
        (q : UpdateRequest) {s : Service} {w w' : W}
        → service_at q.id w ≡ done s
        → opsgenie_client.update q w ≡ (done tt, w')
        → service_at q.id w' ≡ done (patch q s)
    pub update_cluster :
        (q : UpdateRequest) {w w' : W}
        → opsgenie_client.update q w ≡ (done tt, w')
        → SameCluster w w'
