-- ===== src/Team/Memory.antt =====
-- A world with one resource and at most one team in Opsgenie, which shows that the assumptions of
-- `Team.Lawful` can be met and lets the tests run the reconciler.
use text.Mathlib.TextEquality.{eq_iff}
use opsgenie_operator.Prelude.{
  String, ◌≡◌, ◌≢◌, refl, Option, none, some, pos, ◌==◌, string_eq, if◌then◌else◌, arith, true, ap,
}
use opsgenie_operator.Exec.{Reply, done, failed, ApiError}
use opsgenie_operator.Kube.{key_eq}
use opsgenie_operator.Api.Team.{OpsgenieTeam}
use opsgenie_operator.Opsgenie.Team.{
  GetTeamResult, CreateTeamRequest, CreateTeamResult, UpdateTeamRequest,
}
use opsgenie_operator.Team.Reconcile.{OpsgenieTeamReconciler}
use opsgenie_operator.Team.Lawful.{IsLawful, patch, created, sent}

pub record World : Type 0 where
  pub resource : OpsgenieTeam
  pub team : Option GetTeamResult

abbrev pub not_found : ApiError
not_found = record { message = "not found"; not_found = true }

abbrev answer_named : String → Option GetTeamResult → Reply GetTeamResult
answer_named n none = failed not_found
answer_named n (some t) = if t.name == n then done t else failed not_found

abbrev patched : UpdateTeamRequest → Option GetTeamResult → Option GetTeamResult
patched q none = none
patched q (some t) = if t.id == q.id then some (patch q t) else some t

abbrev pub memory : OpsgenieTeamReconciler World
memory = record {
  client = record {
    get = λ k w. (if w.resource.metadata == k then done w.resource else failed not_found, w);
    update_status = λ c w. (done c, record w { resource = c });
  };
  opsgenie_client = record {
    get = λ q w. (answer_named q.identifier_value w.team, w);
    create = λ q w. (done (record { id = "T1" }), record w { team = some (created q "T1") });
    update = λ q w. (done tt, record w { team = patched q w.team });
  };
  now = λ w. (pos 7, w);
}

team_of_answer :
    (n : String) (team : Option GetTeamResult) {t : GetTeamResult}
    → answer_named n team ≡ done t
    → (team ≡ some t) × (t.name ≡ n)
team_of_answer n none h = cc
team_of_answer n (some t) h = ground arith

id_kept :
    (q : CreateTeamRequest) (w : World) {a : CreateTeamResult} {w' : World}
    → memory.opsgenie_client.create q w ≡ (done a, w')
    → a.id ≢ ""
id_kept q w h e = ground (arith, eq_iff "T1" "")

stored :
    (q : UpdateTeamRequest) (n : String) (w : World) {t : GetTeamResult} {w' : World}
    → answer_named n w.team ≡ done t
    → t.id ≡ q.id
    → memory.opsgenie_client.update q w ≡ (done tt, w')
    → answer_named (sent q.name n) w'.team ≡ done (patch q t)
stored q n w {w' = w'} found same h =
    let (here, named) = team_of_answer n w.team found in
    let moved : record w { team = patched q w.team } ≡ w' = ap (λ r. r.1) h in
    rw (← moved, here) (ground arith)

pub memory-IsLawful : IsLawful memory
memory-IsLawful = record {
  get_quiet = λ k w. refl;
  get_team_quiet = λ n w. refl;
  resource-now = λ k w. refl;
  team-now = λ n w. refl;
  resource_key = λ k w h. ground arith;
  team_name = λ n w h. (team_of_answer n w.team h).1;
  status_answer = λ c h. ground arith;
  status_stored = λ c h. ground arith;
  status_team = λ c h n. ground arith;
  create_id = λ q {w = w} h. id_kept q w h;
  create_stored = λ q h. ground arith;
  create_resource = λ q h k. ground arith;
  update_stored = λ q n {w = w} found same h. stored q n w found same h;
  update_resource = λ q h k. ground arith;
}
