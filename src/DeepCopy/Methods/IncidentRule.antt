-- ===== src/DeepCopy/Methods/IncidentRule.antt =====
-- api/v1beta1/zz_generated.deepcopy.go: the methods of OpsgenieIncidentRule and of the structs in it.
use opsgenie_operator.Prelude.{Bool, String, Option}
use opsgenie_operator.Api.IncidentRule.{OpsgenieIncidentCondition, OpsgenieIncidentRuleStatus}
use opsgenie_operator.DeepCopy.Types.{
  Layout, OpsgenieStakeholderProperties, OpsgenieIncidentProperties, OpsgenieIncidentResponder,
  OpsgenieIncidentRuleSpec, OpsgenieIncidentRule, OpsgenieIncidentRuleList,
}
use opsgenie_operator.DeepCopy.Objects.{Object}
use opsgenie_operator.DeepCopy.Memory.{Pointer, M, pure, ◌>>=◌, copy_flat, copy_pointer, copy_map}
use opsgenie_operator.DeepCopy.Arrays.{
  bool_stored, string_stored, entry_stored, reference_stored, incident_rule_status_stored,
}
use opsgenie_operator.DeepCopy.PartArrays.{
  stakeholder_properties_stored, incident_condition_stored, incident_properties_stored,
  incident_responder_stored, incident_rule_spec_stored,
}
use opsgenie_operator.DeepCopy.KindArrays.{incident_rule_stored, incident_rule_list_stored}
use opsgenie_operator.DeepCopy.Library.{Library, copy_reference}
use opsgenie_operator.DeepCopy.Methods.Resource.{
  resource_deep_copy_into, resource_list_deep_copy_into,
}

module _ {layout : Layout} where
  unfoldable pub stakeholder_properties_deep_copy_into :
      OpsgenieStakeholderProperties → M (Object layout) OpsgenieStakeholderProperties
  stakeholder_properties_deep_copy_into x = do
    enable ← copy_pointer (pure {A = Bool}) x.enable
    pure (record x { enable = enable })

  unfoldable pub stakeholder_properties_deep_copy :
      Option Pointer → M (Object layout) (Option Pointer)
  stakeholder_properties_deep_copy = copy_pointer stakeholder_properties_deep_copy_into

  unfoldable pub incident_condition_deep_copy_into :
      OpsgenieIncidentCondition → M (Object layout) OpsgenieIncidentCondition
  incident_condition_deep_copy_into x = pure x

  unfoldable pub incident_condition_deep_copy : Option Pointer → M (Object layout) (Option Pointer)
  incident_condition_deep_copy = copy_pointer incident_condition_deep_copy_into

module _ {layout : Layout} (lib : Library layout) where
  unfoldable pub incident_properties_deep_copy_into :
      OpsgenieIncidentProperties → M (Object layout) OpsgenieIncidentProperties
  incident_properties_deep_copy_into x = do
    tags ← copy_flat String x.tags
    details ← copy_map lib.range x.details
    stakeholder_properties ← stakeholder_properties_deep_copy_into x.stakeholder_properties
    pure (record x {
      tags = tags;
      details = details;
      stakeholder_properties = stakeholder_properties;
    })

  unfoldable pub incident_properties_deep_copy : Option Pointer → M (Object layout) (Option Pointer)
  incident_properties_deep_copy = copy_pointer incident_properties_deep_copy_into

module _ {layout : Layout} where
  unfoldable pub incident_responder_deep_copy_into :
      OpsgenieIncidentResponder → M (Object layout) OpsgenieIncidentResponder
  incident_responder_deep_copy_into x = do
    schedule_ref ← copy_reference x.schedule_ref
    team_ref ← copy_reference x.team_ref
    pure (record x { schedule_ref = schedule_ref; team_ref = team_ref })

  unfoldable pub incident_responder_deep_copy : Option Pointer → M (Object layout) (Option Pointer)
  incident_responder_deep_copy = copy_pointer incident_responder_deep_copy_into

module _ {layout : Layout} (lib : Library layout) where
  unfoldable pub incident_rule_spec_deep_copy_into :
      OpsgenieIncidentRuleSpec → M (Object layout) OpsgenieIncidentRuleSpec
  incident_rule_spec_deep_copy_into x = do
    service_ref ← copy_reference x.service_ref
    conditions ← copy_flat OpsgenieIncidentCondition x.conditions
    incident_properties ← incident_properties_deep_copy_into lib x.incident_properties
    pure (record x {
      service_ref = service_ref;
      conditions = conditions;
      incident_properties = incident_properties;
    })

  unfoldable pub incident_rule_spec_deep_copy : Option Pointer → M (Object layout) (Option Pointer)
  incident_rule_spec_deep_copy = copy_pointer incident_rule_spec_deep_copy_into

  unfoldable pub incident_rule_status_deep_copy_into :
      OpsgenieIncidentRuleStatus → M (Object layout) OpsgenieIncidentRuleStatus
  incident_rule_status_deep_copy_into x = do
    last_synced_time ← lib.copy_time x.last_synced_time
    pure (record x { last_synced_time = last_synced_time })

  unfoldable pub incident_rule_status_deep_copy :
      Option Pointer → M (Object layout) (Option Pointer)
  incident_rule_status_deep_copy = copy_pointer incident_rule_status_deep_copy_into

  unfoldable pub incident_rule_deep_copy_into :
      OpsgenieIncidentRule layout → M (Object layout) (OpsgenieIncidentRule layout)
  incident_rule_deep_copy_into =
      resource_deep_copy_into lib incident_rule_spec_deep_copy_into
        incident_rule_status_deep_copy_into

  unfoldable pub incident_rule_deep_copy : Option Pointer → M (Object layout) (Option Pointer)
  incident_rule_deep_copy = copy_pointer incident_rule_deep_copy_into

  unfoldable pub incident_rule_list_deep_copy_into :
      OpsgenieIncidentRuleList layout → M (Object layout) (OpsgenieIncidentRuleList layout)
  incident_rule_list_deep_copy_into = resource_list_deep_copy_into lib incident_rule_deep_copy_into

  unfoldable pub incident_rule_list_deep_copy : Option Pointer → M (Object layout) (Option Pointer)
  incident_rule_list_deep_copy = copy_pointer incident_rule_list_deep_copy_into
