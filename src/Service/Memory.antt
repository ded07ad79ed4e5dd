-- ===== src/Service/Memory.antt =====
-- A world with one resource, one team and at most one service in Opsgenie, in which the
-- assumptions of `Service.Lawful` hold.
use text.Mathlib.TextEquality.{eq_iff}
use opsgenie_operator.Prelude.{
  String, ◌≡◌, refl, [], Option, none, some, pos, ◌==◌, string_eq, if◌then◌else◌, arith, true, ap,
}
use opsgenie_operator.Exec.{Reply, done, failed, ApiError}
use opsgenie_operator.Kube.{key_eq}
use opsgenie_operator.Api.Team.{OpsgenieTeam}
use opsgenie_operator.Api.Service.{OpsgenieService}
use opsgenie_operator.Opsgenie.Service.{Service, UpdateRequest}
use opsgenie_operator.Service.Reconcile.{OpsgenieServiceReconciler}
use opsgenie_operator.Service.Lawful.{IsLawful, SameCluster, patch, made}

pub record World : Type 0 where
  pub resource : OpsgenieService
  pub team : OpsgenieTeam
  pub service : Option Service

abbrev pub absent : ApiError
absent = record { message = "not found"; not_found = true }

abbrev answer : String → Option Service → Reply Service
answer id none = failed absent
answer id (some s) = if id == "S1" then done s else failed absent

abbrev patched : UpdateRequest → Option Service → Option Service
patched q none = none
patched q (some s) = if q.id == "S1" then some (patch q s) else some s

abbrev pub memory : OpsgenieServiceReconciler World
memory = record {
  client = record {
    get = λ k w. (if w.resource.metadata == k then done w.resource else failed absent, w);
    update_status = λ c w. (done c, record w { resource = c });
  };
  team_client = record {
    get = λ k w. (if w.team.metadata == k then done w.team else failed absent, w);
    update_status = λ c w. (failed absent, w);
  };
  opsgenie_client = record {
    get = λ q w. (answer q.id w.service, w);
    create = λ q w. (done (record { id = "S1" }), record w { service = some (made q) });
    update = λ q w. (done tt, record w { service = patched q w.service });
    get_incident_rules = λ q w. (done [], w);
    create_incident_rule = λ q w. (failed absent, w);
    update_incident_rule = λ q w. (failed absent, w);
  };
  now = λ w. (pos 7, w);
}

same_cluster :
    (w w' : World) → w'.resource ≡ w.resource → w'.team ≡ w.team → SameCluster memory w w'
same_cluster w w' e f = record { same_resource = λ k. rw e refl; same_team = λ k. rw f refl }

updated :
    (q : UpdateRequest) (o : Option Service) {s : Service}
    → answer q.id o ≡ done s
    → answer q.id (patched q o) ≡ done (patch q s)
updated q none h = cc
updated q (some s) h = ground arith

pub memory-IsLawful : IsLawful memory
memory-IsLawful = record {
  get_quiet = λ k w. refl;
  get_team_quiet = λ k w. refl;
  get_service_quiet = λ id w. refl;
  now_cluster = λ w. same_cluster w w refl refl;
  now_service = λ id w. refl;
  status_stored = λ c h. ground arith;
  status_team = λ c h k. ground arith;
  status_service = λ c h id. ground arith;
  create_id = λ q h e. ground (arith, eq_iff "S1" "");
  create_stored = λ q h. ground arith;
  create_cluster = λ q {a = a} {w = w} {w' = w'} h. same_cluster w w' (ground arith) (ground arith);
  update_stored = λ q {s = s} {w = w} found h. rw (← ap (λ x. x.1) h) (updated q w.service found);
  update_cluster = λ q {w = w} {w' = w'} h. same_cluster w w' (ground arith) (ground arith);
}
