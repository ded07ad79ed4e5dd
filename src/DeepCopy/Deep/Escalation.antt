-- ===== src/DeepCopy/Deep/Escalation.antt =====
-- The methods of OpsgenieEscalation and of the structs in it make deep copies.
use opsgenie_operator.Prelude.{refl}
use opsgenie_operator.Api.Escalation.{OpsgenieEscalationStatus}
use opsgenie_operator.DeepCopy.Types.{
  Layout, OpsgenieEscalationRecipient, OpsgenieEscalationRule, OpsgenieEscalationSpec,
  OpsgenieEscalation, OpsgenieEscalationList,
}
use opsgenie_operator.DeepCopy.Objects.{Object}
use opsgenie_operator.DeepCopy.Memory.{copy_slice}
use opsgenie_operator.DeepCopy.Arrays.{reference_stored, escalation_status_stored}
use opsgenie_operator.DeepCopy.PartArrays.{
  escalation_recipient_stored, escalation_rule_stored, escalation_spec_stored,
}
use opsgenie_operator.DeepCopy.KindArrays.{escalation_stored, escalation_list_stored}
use opsgenie_operator.DeepCopy.Library.{Library, copy_reference}
use opsgenie_operator.DeepCopy.Equal.{Equal, IsDeepCopy, Plain, SliceEqual}
use opsgenie_operator.DeepCopy.Elements.{copy_slice-IsDeepCopy}
use opsgenie_operator.DeepCopy.Fields.{
  OneField, copy_one-IsDeepCopy, TwoFields, copy_two-IsDeepCopy,
}
use opsgenie_operator.DeepCopy.Documented.{Documented, ReferenceEqual, copy_reference-IsDeepCopy}
use opsgenie_operator.DeepCopy.Deep.Resource.{
  ResourceEqual, ResourceListEqual, resource_deep_copy_into-IsDeepCopy,
  resource_list_deep_copy_into-IsDeepCopy,
}
use opsgenie_operator.DeepCopy.Methods.Escalation.{
  escalation_recipient_deep_copy_into, escalation_rule_deep_copy_into,
  escalation_spec_deep_copy_into, escalation_status_deep_copy_into, escalation_deep_copy_into,
  escalation_list_deep_copy_into,
}

module _ {layout : Layout} where
  abbrev pub EscalationRecipientEqual : Equal (Object layout) OpsgenieEscalationRecipient
  EscalationRecipientEqual =
      TwoFields (λ x. x.schedule_ref) (λ x. x.team_ref)
        (λ x a b. record x { schedule_ref = a; team_ref = b }) ReferenceEqual ReferenceEqual

  pub escalation_recipient_deep_copy_into-IsDeepCopy :
      IsDeepCopy {Object = Object layout} EscalationRecipientEqual
        escalation_recipient_deep_copy_into
  unfolding escalation_recipient_deep_copy_into
  escalation_recipient_deep_copy_into-IsDeepCopy =
      copy_two-IsDeepCopy (λ x. x.schedule_ref) (λ x. x.team_ref)
        (λ x a b. record x { schedule_ref = a; team_ref = b }) ReferenceEqual ReferenceEqual
        copy_reference copy_reference (λ x a b. refl) (λ x a b. refl) copy_reference-IsDeepCopy
        copy_reference-IsDeepCopy

  abbrev pub EscalationRuleEqual : Equal (Object layout) OpsgenieEscalationRule
  EscalationRuleEqual =
      OneField (λ x. x.recipient) (λ x a. record x { recipient = a }) EscalationRecipientEqual

  pub escalation_rule_deep_copy_into-IsDeepCopy :
      IsDeepCopy {Object = Object layout} EscalationRuleEqual escalation_rule_deep_copy_into
  unfolding escalation_rule_deep_copy_into
  escalation_rule_deep_copy_into-IsDeepCopy =
      copy_one-IsDeepCopy (λ x. x.recipient) (λ x a. record x { recipient = a })
        EscalationRecipientEqual escalation_recipient_deep_copy_into (λ x a. refl)
        escalation_recipient_deep_copy_into-IsDeepCopy

  abbrev pub EscalationSpecEqual : Equal (Object layout) OpsgenieEscalationSpec
  EscalationSpecEqual =
      TwoFields (λ x. x.team_ref) (λ x. x.rules) (λ x a b. record x { team_ref = a; rules = b })
        ReferenceEqual (SliceEqual EscalationRuleEqual)

  pub escalation_spec_deep_copy_into-IsDeepCopy :
      IsDeepCopy {Object = Object layout} EscalationSpecEqual escalation_spec_deep_copy_into
  unfolding escalation_spec_deep_copy_into
  escalation_spec_deep_copy_into-IsDeepCopy =
      copy_two-IsDeepCopy (λ x. x.team_ref) (λ x. x.rules)
        (λ x a b. record x { team_ref = a; rules = b }) ReferenceEqual
        (SliceEqual EscalationRuleEqual) copy_reference (copy_slice escalation_rule_deep_copy_into)
        (λ x a b. refl) (λ x a b. refl) copy_reference-IsDeepCopy
        (copy_slice-IsDeepCopy EscalationRuleEqual escalation_rule_deep_copy_into
          escalation_rule_deep_copy_into-IsDeepCopy)

  abbrev pub EscalationStatusEqual : Equal (Object layout) OpsgenieEscalationStatus
  EscalationStatusEqual =
      OneField (λ x. x.last_synced_time) (λ x a. record x { last_synced_time = a }) Plain

module _ {layout : Layout} {lib : Library layout} (doc : Documented lib) where
  pub escalation_status_deep_copy_into-IsDeepCopy :
      IsDeepCopy {Object = Object layout} EscalationStatusEqual
        (escalation_status_deep_copy_into lib)
  unfolding escalation_status_deep_copy_into
  escalation_status_deep_copy_into-IsDeepCopy =
      copy_one-IsDeepCopy (λ x. x.last_synced_time) (λ x a. record x { last_synced_time = a }) Plain
        lib.copy_time (λ x a. refl) doc.time

  abbrev pub EscalationEqual : Equal (Object layout) (OpsgenieEscalation layout)
  EscalationEqual = ResourceEqual doc EscalationSpecEqual EscalationStatusEqual

  pub escalation_deep_copy_into-IsDeepCopy :
      IsDeepCopy EscalationEqual (escalation_deep_copy_into lib)
  unfolding escalation_deep_copy_into
  escalation_deep_copy_into-IsDeepCopy =
      resource_deep_copy_into-IsDeepCopy doc EscalationSpecEqual EscalationStatusEqual
        escalation_spec_deep_copy_into (escalation_status_deep_copy_into lib)
        escalation_spec_deep_copy_into-IsDeepCopy escalation_status_deep_copy_into-IsDeepCopy

  abbrev pub EscalationListEqual : Equal (Object layout) (OpsgenieEscalationList layout)
  EscalationListEqual = ResourceListEqual doc EscalationEqual

  pub escalation_list_deep_copy_into-IsDeepCopy :
      IsDeepCopy EscalationListEqual (escalation_list_deep_copy_into lib)
  unfolding escalation_list_deep_copy_into
  escalation_list_deep_copy_into-IsDeepCopy =
      resource_list_deep_copy_into-IsDeepCopy doc EscalationEqual (escalation_deep_copy_into lib)
        escalation_deep_copy_into-IsDeepCopy
