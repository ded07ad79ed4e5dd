-- ===== src/Schedule/Fixture.antt =====
-- A schedule, its rotation in Opsgenie, and a world for the tests of the schedule controller.
use opsgenie_operator.Prelude.{
  String, false, ◌≡◌, refl, List, [], ◌∷◌, Option, none, some, pos, string_eq, int_eq, to_uint32,
  ◌==◌, if◌then◌else◌,
}
use native.Mathlib.Decide.{ℕ_discrete}
use opsgenie_operator.Exec.Fallible.{traverse}
use opsgenie_operator.Exec.{ok, done, failed, ApiError}
use opsgenie_operator.Kube.{ObjectKey, Time}
use opsgenie_operator.Api.Schedule.{
  OpsgenieSchedule, OpsgenieRotation, OpsgenieParticipant, OpsgenieTimeRestriction,
}
use opsgenie_operator.Opsgenie.Og.{Rotation, Participant, TimeRestriction, monday, friday}
use opsgenie_operator.Opsgenie.Schedule.{Schedule}
use opsgenie_operator.Schedule.Days.{
  convert_time_restrictions, convert_intervals, convert_interval, map_day_int_to_string,
}
use opsgenie_operator.Schedule.Participants.{convert_participants, convert_participant}
use opsgenie_operator.Schedule.Rotations.{convert_rotations, convert_rotation}
use opsgenie_operator.Schedule.Reconcile.{OpsgenieScheduleReconciler}

abbrev pub key : ObjectKey
key = record { namespace = "ops"; name = "oncall" }

abbrev pub ann : OpsgenieParticipant
ann = record { type = "user"; id = ""; name = ""; username = "ann@x.org" }

abbrev pub backend : OpsgenieParticipant
backend = record { type = "team"; id = ""; name = "Backend"; username = "" }

abbrev pub people : List OpsgenieParticipant
people = ann ∷ backend ∷ []

abbrev pub converted_people : List Participant
converted_people =
    record { type = "user"; id = ""; name = ""; username = "ann@x.org" }
    ∷ record { type = "team"; id = ""; name = "Backend"; username = "" }
    ∷ []

abbrev pub office_hours : OpsgenieTimeRestriction
office_hours = record {
  type = "weekday-and-time-of-day";
  intervals =
      record { start_day = pos 1; end_day = pos 5; start_hour = pos 9; end_hour = pos 17 } ∷ [];
}

abbrev pub converted_hours : TimeRestriction
converted_hours = record {
  type = "weekday-and-time-of-day";
  restriction_list =
      record {
        start_day = monday;
        end_day = friday;
        start_hour = 9;
        start_min = 0;
        end_hour = 17;
        end_min = 0;
      }
      ∷ [];
}

abbrev pub week : OpsgenieRotation
week = record {
  name = "week";
  type = "weekly";
  start_date = "2025-01-06T00:00:00Z";
  end_date = "";
  length = pos 1;
  participants = people;
  time_restriction = some office_hours;
}

-- It stands for `time.Parse`: one date is known.
abbrev pub parse_time : String → Option Time
parse_time text = if text == "2025-01-06T00:00:00Z" then some (pos 1736121600000000000) else none

abbrev pub converted_week : Rotation
converted_week = record {
  name = "week";
  type = "weekly";
  start_date = some (pos 1736121600000000000);
  length = 1;
  participants = converted_people;
  time_restriction = some converted_hours;
}

pub week_converts : convert_rotations parse_time (week ∷ []) ≡ ok (converted_week ∷ [])
unfolding convert_rotations convert_rotation convert_participants convert_participant
    convert_time_restrictions convert_intervals convert_interval map_day_int_to_string to_uint32
    string_eq int_eq traverse ℕ_discrete
week_converts = refl

abbrev pub oncall : OpsgenieSchedule
oncall = record {
  metadata = key;
  spec = record {
    name = "On call";
    description = "";
    time_zone = "UTC";
    rotations = week ∷ [];
    owner_team = "Backend";
  };
  status = record { schedule_id = ""; status = ""; last_synced_time = pos 0 };
}

abbrev pub in_opsgenie : Schedule
in_opsgenie = record {
  id = "D1";
  description = "";
  timezone = "UTC";
  rotations = converted_week ∷ [];
}

abbrev pub conflict : ApiError
conflict = record {
  message = "Error occurred with Status code: 409, schedule already exists";
  not_found = false;
}

-- A world without state, in which the resource is `cr`, and the schedule is there in Opsgenie.
abbrev pub fixed : OpsgenieSchedule → OpsgenieScheduleReconciler (Unit {0})
fixed cr = record {
  client = record { get = λ k w. (done cr, w); update_status = λ c w. (done c, w) };
  opsgenie_client = record {
    get = λ q w. (done in_opsgenie, w);
    create = λ q w. (failed conflict, w);
    update = λ q w. (done tt, w);
  };
  now = λ w. (pos 7, w);
  parse_time = parse_time;
}
