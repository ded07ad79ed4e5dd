-- ===== src/Escalation/Fixture.antt =====
-- An escalation, its schedule, and a world without state for the tests.
use opsgenie_operator.Prelude.{false, [], ◌∷◌, none, some, pos, string_eq, nat_eq}
use opsgenie_operator.Exec.{done, failed, ApiError}
use opsgenie_operator.Kube.{ObjectKey, key_eq}
use opsgenie_operator.Api.Schedule.{OpsgenieSchedule}
use opsgenie_operator.Api.Escalation.{
  OpsgenieEscalation, OpsgenieEscalationRule, OpsgenieEscalationRecipient,
}
use opsgenie_operator.Opsgenie.Escalation.{Rule}
use opsgenie_operator.Escalation.Reconciler.{OpsgenieEscalationReconciler}

abbrev pub key : ObjectKey
key = record { namespace = "ops"; name = "paging" }

abbrev pub on_call : OpsgenieEscalationRecipient
on_call = record {
  type = "schedule";
  id = "";
  username = "";
  schedule_ref = some (record { name = "oncall" });
  team_ref = none;
}

abbrev pub page_rule : OpsgenieEscalationRule
page_rule = record {
  condition = "if-not-acked";
  notify_type = "default";
  delay_min = pos 5;
  recipient = on_call;
}

abbrev pub paging : OpsgenieEscalation
paging = record {
  metadata = key;
  spec = record {
    name = "Paging";
    description = "";
    team_id = "T1";
    team_ref = none;
    rules = page_rule ∷ [];
  };
  status = record {
    escalation_id = "";
    resolved_team_id = "";
    status = "";
    last_synced_time = pos 0;
  };
}

abbrev pub orphan : OpsgenieEscalation
orphan = record paging { spec = record (paging.spec) { team_id = "" } }

abbrev pub sent_rule : Rule
sent_rule = record {
  condition = "if-not-acked";
  notify_type = "default";
  delay = 5;
  recipient = record { type = "schedule"; id = "D1"; name = ""; username = "" };
}

abbrev pub oncall : OpsgenieSchedule
oncall = record {
  metadata = record { namespace = "ops"; name = "oncall" };
  spec = record {
    name = "On call";
    description = "";
    time_zone = "UTC";
    rotations = [];
    owner_team = "";
  };
  status = record { schedule_id = "D1"; status = "Active"; last_synced_time = pos 0 };
}

abbrev pub refused : ApiError
refused = record { message = "refused"; not_found = false }

-- A world without state, in which the resource is `cr`, and Opsgenie has no escalation.
abbrev pub fixed : OpsgenieEscalation → OpsgenieEscalationReconciler (Unit {0})
fixed cr = record {
  client = record { get = λ k w. (done cr, w); update_status = λ c w. (done c, w) };
  team_client = record { get = λ k w. (failed refused, w); update_status = λ c w. (done c, w) };
  schedule_client = record { get = λ k w. (done oncall, w); update_status = λ c w. (done c, w) };
  opsgenie_client = record {
    get = λ q w. (failed refused, w);
    create = λ q w. (done (record { id = "E1" }), w);
    update = λ q w. (done tt, w);
  };
  record_event = λ e w. (tt, w);
  now = λ w. (pos 7, w);
}
