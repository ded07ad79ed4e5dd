-- ===== src/Team/Lawful.antt =====
-- What the team controller relies on in Kubernetes and in Opsgenie's team API: while nobody else
-- writes, a read has no effect and answers the same again, a status update stores what it is
-- given, `Create` makes a team that `Get` finds by its name, and `Update` changes the fields that
-- are sent, an empty field not being sent.
use opsgenie_operator.Prelude.{String, ◌≡◌, ◌≢◌, List, [], ◌∷◌, ◌==◌, string_eq, if◌then◌else◌}
use opsgenie_operator.Exec.{Reply, done}
use opsgenie_operator.Kube.{ObjectKey}
use opsgenie_operator.Api.Team.{OpsgenieTeam}
use opsgenie_operator.Opsgenie.Og.{IdentifierType}
use opsgenie_operator.Opsgenie.Team.{
  Member, GetTeamRequest, GetTeamResult, CreateTeamRequest, CreateTeamResult, UpdateTeamRequest,
}
use opsgenie_operator.Team.Reconcile.{OpsgenieTeamReconciler}

abbrev pub by_name : String → GetTeamRequest
by_name n = record { identifier_type = IdentifierType.name; identifier_value = n }

abbrev pub sent : String → String → String
sent new old = if new == "" then old else new

abbrev pub sent_members : List Member → List Member → List Member
sent_members [] old = old
sent_members (m ∷ new) old = m ∷ new

abbrev pub patch : UpdateTeamRequest → GetTeamResult → GetTeamResult
patch q t = record {
  id = t.id;
  name = sent q.name t.name;
  description = sent q.description t.description;
  members = sent_members q.members t.members;
}

abbrev pub created : CreateTeamRequest → String → GetTeamResult
created q id = record { id = id; name = q.name; description = q.description; members = q.members }

module _ {W : Type 0} (r : OpsgenieTeamReconciler W) where
  open r use {client, opsgenie_client, now}

  -- What a read of the resource, and a lookup of a team by its name, answer in a world.
  abbrev pub resource_at : ObjectKey → W → Reply OpsgenieTeam
  resource_at k w = (client.get k w).0

  abbrev pub team_named : String → W → Reply GetTeamResult
  team_named n w = (opsgenie_client.get (by_name n) w).0

  pub record IsLawful : Type 0 where
    pub get_quiet : (k : ObjectKey) (w : W) → (client.get k w).1 ≡ w
    pub get_team_quiet : (n : String) (w : W) → (opsgenie_client.get (by_name n) w).1 ≡ w
    pub resource-now : (k : ObjectKey) (w : W) → resource_at k (now w).1 ≡ resource_at k w
    pub team-now : (n : String) (w : W) → team_named n (now w).1 ≡ team_named n w
    -- an answer is about what was asked for
    pub resource_key :
        (k : ObjectKey) (w : W) {c : OpsgenieTeam} → resource_at k w ≡ done c → c.metadata ≡ k
    pub team_name : (n : String) (w : W) {t : GetTeamResult} → team_named n w ≡ done t → t.name ≡ n
    pub status_answer :
        (c : OpsgenieTeam) {c' : OpsgenieTeam} {w w' : W}
        → client.update_status c w ≡ (done c', w')
        → c' ≡ c
    pub status_stored :
        (c : OpsgenieTeam) {c' : OpsgenieTeam} {w w' : W}
        → client.update_status c w ≡ (done c', w')
        → resource_at c.metadata w' ≡ done c
    pub status_team :
        (c : OpsgenieTeam) {c' : OpsgenieTeam} {w w' : W}
        → client.update_status c w ≡ (done c', w')
        → (n : String) → team_named n w' ≡ team_named n w
    pub create_id :
        (q : CreateTeamRequest) {a : CreateTeamResult} {w w' : W}
        → opsgenie_client.create q w ≡ (done a, w')
        → a.id ≢ ""
    pub create_stored :
        (q : CreateTeamRequest) {a : CreateTeamResult} {w w' : W}
        → opsgenie_client.create q w ≡ (done a, w')
        → team_named q.name w' ≡ done (created q a.id)
    pub create_resource :
        (q : CreateTeamRequest) {a : CreateTeamResult} {w w' : W}
        → opsgenie_client.create q w ≡ (done a, w')
        → (k : ObjectKey) → resource_at k w' ≡ resource_at k w
    pub update_stored :
        (q : UpdateTeamRequest) (n : String) {t : GetTeamResult} {w w' : W}
        → team_named n w ≡ done t
        → t.id ≡ q.id
        → opsgenie_client.update q w ≡ (done tt, w')
        → team_named (sent q.name n) w' ≡ done (patch q t)
    pub update_resource :
        (q : UpdateTeamRequest) {w w' : W}
        → opsgenie_client.update q w ≡ (done tt, w')
        → (k : ObjectKey) → resource_at k w' ≡ resource_at k w
