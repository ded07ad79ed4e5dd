-- ===== src/DeepCopy/Methods/Escalation.antt =====
-- api/v1beta1/zz_generated.deepcopy.go: the methods of OpsgenieEscalation and of the structs in it.
use opsgenie_operator.Prelude.{Option}
use opsgenie_operator.Api.Escalation.{OpsgenieEscalationStatus}
use opsgenie_operator.DeepCopy.Types.{
  Layout, OpsgenieEscalationRecipient, OpsgenieEscalationRule, OpsgenieEscalationSpec,
  OpsgenieEscalation, OpsgenieEscalationList,
}
use opsgenie_operator.DeepCopy.Objects.{Object}
use opsgenie_operator.DeepCopy.Memory.{Pointer, M, pure, ◌>>=◌, copy_slice, copy_pointer}
use opsgenie_operator.DeepCopy.Arrays.{reference_stored, escalation_status_stored}
use opsgenie_operator.DeepCopy.PartArrays.{
  escalation_recipient_stored, escalation_rule_stored, escalation_spec_stored,
}
use opsgenie_operator.DeepCopy.KindArrays.{escalation_stored, escalation_list_stored}
use opsgenie_operator.DeepCopy.Library.{Library, copy_reference}
use opsgenie_operator.DeepCopy.Methods.Resource.{
  resource_deep_copy_into, resource_list_deep_copy_into,
}

module _ {layout : Layout} where
  unfoldable pub escalation_recipient_deep_copy_into :
      OpsgenieEscalationRecipient → M (Object layout) OpsgenieEscalationRecipient
  escalation_recipient_deep_copy_into x = do
    schedule_ref ← copy_reference x.schedule_ref
    team_ref ← copy_reference x.team_ref
    pure (record x { schedule_ref = schedule_ref; team_ref = team_ref })

  unfoldable pub escalation_recipient_deep_copy :
      Option Pointer → M (Object layout) (Option Pointer)
  escalation_recipient_deep_copy = copy_pointer escalation_recipient_deep_copy_into

  unfoldable pub escalation_rule_deep_copy_into :
      OpsgenieEscalationRule → M (Object layout) OpsgenieEscalationRule
  escalation_rule_deep_copy_into x = do
    recipient ← escalation_recipient_deep_copy_into x.recipient
    pure (record x { recipient = recipient })

  unfoldable pub escalation_rule_deep_copy : Option Pointer → M (Object layout) (Option Pointer)
  escalation_rule_deep_copy = copy_pointer escalation_rule_deep_copy_into

  unfoldable pub escalation_spec_deep_copy_into :
      OpsgenieEscalationSpec → M (Object layout) OpsgenieEscalationSpec
  escalation_spec_deep_copy_into x = do
    team_ref ← copy_reference x.team_ref
    rules ← copy_slice escalation_rule_deep_copy_into x.rules
    pure (record x { team_ref = team_ref; rules = rules })

  unfoldable pub escalation_spec_deep_copy : Option Pointer → M (Object layout) (Option Pointer)
  escalation_spec_deep_copy = copy_pointer escalation_spec_deep_copy_into

module _ {layout : Layout} (lib : Library layout) where
  unfoldable pub escalation_status_deep_copy_into :
      OpsgenieEscalationStatus → M (Object layout) OpsgenieEscalationStatus
  escalation_status_deep_copy_into x = do
    last_synced_time ← lib.copy_time x.last_synced_time
    pure (record x { last_synced_time = last_synced_time })

  unfoldable pub escalation_status_deep_copy : Option Pointer → M (Object layout) (Option Pointer)
  escalation_status_deep_copy = copy_pointer escalation_status_deep_copy_into

  unfoldable pub escalation_deep_copy_into :
      OpsgenieEscalation layout → M (Object layout) (OpsgenieEscalation layout)
  escalation_deep_copy_into =
      resource_deep_copy_into lib escalation_spec_deep_copy_into escalation_status_deep_copy_into

  unfoldable pub escalation_deep_copy : Option Pointer → M (Object layout) (Option Pointer)
  escalation_deep_copy = copy_pointer escalation_deep_copy_into

  unfoldable pub escalation_list_deep_copy_into :
      OpsgenieEscalationList layout → M (Object layout) (OpsgenieEscalationList layout)
  escalation_list_deep_copy_into = resource_list_deep_copy_into lib escalation_deep_copy_into

  unfoldable pub escalation_list_deep_copy : Option Pointer → M (Object layout) (Option Pointer)
  escalation_list_deep_copy = copy_pointer escalation_list_deep_copy_into
