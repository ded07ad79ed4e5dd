-- ===== src/Escalation/Rules.antt =====
-- `resolveTeamID`, `resolveRecipientID` and `mapEscalationRules`.
use opsgenie_operator.Prelude.{
  String, ◌&&◌, List, [], ◌∷◌, Option, none, some, to_uint32, ◌==◌, ◌!=◌, string_eq, if◌then◌else◌,
}
use opsgenie_operator.Exec.{Proc, pure, raise, call, ◌>>=◌, team_unspecified, recipient_unspecified}
use opsgenie_operator.Kube.{LocalObjectReference}
use opsgenie_operator.Api.Escalation.{
  OpsgenieEscalationRecipient, OpsgenieEscalationRule, OpsgenieEscalation,
}
use opsgenie_operator.Opsgenie.Og.{Participant}
use opsgenie_operator.Opsgenie.Escalation.{Rule}
use opsgenie_operator.Escalation.Reconciler.{OpsgenieEscalationReconciler}

-- The two strings that `resolveRecipientID` returns.
pub record Identity : Type 0 where
  pub id : String
  pub username : String

-- The recipient object: the id if there is one, else the username if there is one.
unfoldable pub build_recipient : String → Identity → Participant
build_recipient type who =
    if who.id != ""
    then record { type = type; id = who.id; name = ""; username = "" }
    else if who.username != ""
    then record { type = type; id = ""; name = ""; username = who.username }
    else record { type = type; id = ""; name = ""; username = "" }

abbrev pub build_rule : OpsgenieEscalationRule → Identity → Rule
build_rule rule who = record {
  condition = rule.condition;
  notify_type = rule.notify_type;
  delay = to_uint32 rule.delay_min;
  recipient = build_recipient rule.recipient.type who;
}

module _ {W : Type 0} (r : OpsgenieEscalationReconciler W) where
  open r use {team_client, schedule_client}

  unfoldable pub team_of_ref : String → Option LocalObjectReference → Proc W String
  team_of_ref namespace none = raise team_unspecified
  team_of_ref namespace (some ref) = do
    team ← call (team_client.get (record { namespace = namespace; name = ref.name }))
    pure team.status.team_id

  unfoldable pub resolve_team_id : OpsgenieEscalation → Proc W String
  unfolding team_of_ref
  resolve_team_id cr =
      if cr.spec.team_id != ""
      then pure cr.spec.team_id
      else team_of_ref cr.metadata.namespace cr.spec.team_ref

  -- The part of `resolveRecipientID` behind its first two tests: `teamRef`, then `scheduleRef`.
  unfoldable pub recipient_of_refs :
      String → Option LocalObjectReference → Option LocalObjectReference → Proc W Identity
  recipient_of_refs namespace (some ref) schedule_ref = do
    team ← call (team_client.get (record { namespace = namespace; name = ref.name }))
    pure (record { id = team.status.team_id; username = "" })
  recipient_of_refs namespace none (some ref) = do
    schedule ← call (schedule_client.get (record { namespace = namespace; name = ref.name }))
    pure (record { id = schedule.status.schedule_id; username = "" })
  recipient_of_refs namespace none none = raise recipient_unspecified

  unfoldable pub resolve_recipient_id : OpsgenieEscalationRecipient → String → Proc W Identity
  unfolding recipient_of_refs
  resolve_recipient_id recipient namespace =
      if recipient.id != ""
      then pure (record { id = recipient.id; username = "" })
      else if recipient.type == "user" && recipient.username != ""
      then pure (record { id = ""; username = recipient.username })
      else recipient_of_refs namespace recipient.team_ref recipient.schedule_ref

  -- The loop of `mapEscalationRules`.
  unfoldable pub map_escalation_rules : String → List OpsgenieEscalationRule → Proc W (List Rule)
  unfolding resolve_recipient_id build_recipient to_uint32
  map_escalation_rules namespace [] = pure []
  map_escalation_rules namespace (rule ∷ rules) = do
    who ← resolve_recipient_id rule.recipient namespace
    mapped ← map_escalation_rules namespace rules
    pure (build_rule rule who ∷ mapped)
