-- ===== src/Schedule/Memory.antt =====
-- A world with one resource and at most one schedule in Opsgenie, in which the assumptions of
-- `Schedule.Lawful` hold. It chooses the name, the type and the length of a rotation that has none.
use text.Mathlib.TextEquality.{eq_iff}
use opsgenie_operator.Prelude.{
  String, ◌≡◌, refl, Option, none, some, pos, ◌==◌, string_eq, nat_eq, if◌then◌else◌, arith, true,
  ap,
}
use opsgenie_operator.Exec.{Reply, done, failed, ApiError}
use opsgenie_operator.Kube.{Time, key_eq}
use opsgenie_operator.Api.Schedule.{OpsgenieSchedule}
use opsgenie_operator.Opsgenie.Og.{Rotation}
use opsgenie_operator.Opsgenie.Schedule.{Schedule, UpdateRequest}
use opsgenie_operator.Schedule.Reconcile.{OpsgenieScheduleReconciler}
use opsgenie_operator.Schedule.Lawful.{IsLawful, IsAnswer, patch, made}

pub record World : Type 0 where
  pub resource : OpsgenieSchedule
  pub schedule : Option Schedule

abbrev absent : ApiError
absent = record { message = "not found"; not_found = true }

-- What is answered for a rotation that was sent.
abbrev completed : Rotation → Rotation
completed x = record x {
  name = if x.name == "" then "Rot1" else x.name;
  type = if x.type == "" then "weekly" else x.type;
  length = if x.length == 0 then 1 else x.length;
}

completed-IsAnswer : IsAnswer completed
completed-IsAnswer = record {
  name_kept = λ x h. ground arith;
  type_kept = λ x h. ground arith;
  length_kept = λ x h. ground arith;
  start_kept = λ x t h k. h;
}

abbrev answer : String → Option Schedule → Reply Schedule
answer id none = failed absent
answer id (some s) = if id == "D1" then done s else failed absent

abbrev patched : UpdateRequest → Option Schedule → Option Schedule
patched q none = none
patched q (some s) = if q.identifier_value == "D1" then some (patch completed q s) else some s

abbrev pub memory : (String → Option Time) → OpsgenieScheduleReconciler World
memory parse_time = record {
  client = record {
    get = λ k w. (if w.resource.metadata == k then done w.resource else failed absent, w);
    update_status = λ c w. (done c, record w { resource = c });
  };
  opsgenie_client = record {
    get = λ q w. (answer q.identifier_value w.schedule, w);
    create = λ q w.
        (done (record { id = "D1" }), record w { schedule = some (made completed "UTC" q "D1") });
    update = λ q w. (done tt, record w { schedule = patched q w.schedule });
  };
  now = λ w. (pos 7, w);
  parse_time = parse_time;
}

updated :
    (q : UpdateRequest) (o : Option Schedule) {s : Schedule}
    → answer q.identifier_value o ≡ done s
    → answer q.identifier_value (patched q o) ≡ done (patch completed q s)
updated q none h = cc
updated q (some s) h = ground arith

pub memory-IsLawful : (parse_time : String → Option Time) → IsLawful (memory parse_time)
memory-IsLawful parse_time = record {
  answered = completed;
  answer = completed-IsAnswer;
  zone = "UTC";
  get_quiet = λ k w. refl;
  get_schedule_quiet = λ id w. refl;
  schedule-now = λ id w. refl;
  status_stored = λ c h. ground arith;
  status_schedule = λ c h id. ground arith;
  create_id = λ q h e. ground (arith, eq_iff "D1" "");
  create_stored = λ q h. ground arith;
  update_stored = λ q {w = w} found h. rw (← ap (λ x. x.1) h) (updated q w.schedule found);
}
