-- ===== src/DeepCopy/Deep/IncidentRule.antt =====
-- The methods of OpsgenieIncidentRule and of the structs in it make deep copies.
use opsgenie_operator.Prelude.{Bool, String, refl}
use opsgenie_operator.Api.IncidentRule.{OpsgenieIncidentCondition, OpsgenieIncidentRuleStatus}
use opsgenie_operator.DeepCopy.Types.{
  Layout, OpsgenieStakeholderProperties, OpsgenieIncidentProperties, OpsgenieIncidentResponder,
  OpsgenieIncidentRuleSpec, OpsgenieIncidentRule, OpsgenieIncidentRuleList,
}
use opsgenie_operator.DeepCopy.Objects.{Object}
use opsgenie_operator.DeepCopy.Memory.{pure, copy_flat, copy_pointer, copy_map}
use opsgenie_operator.DeepCopy.Arrays.{
  bool_stored, string_stored, entry_stored, reference_stored, incident_rule_status_stored,
}
use opsgenie_operator.DeepCopy.PartArrays.{
  stakeholder_properties_stored, incident_condition_stored, incident_properties_stored,
  incident_responder_stored, incident_rule_spec_stored,
}
use opsgenie_operator.DeepCopy.KindArrays.{incident_rule_stored, incident_rule_list_stored}
use opsgenie_operator.DeepCopy.Library.{Library, copy_reference}
use opsgenie_operator.DeepCopy.Equal.{Equal, IsDeepCopy, Plain, SliceEqual, PointerEqual, MapEqual}
use opsgenie_operator.DeepCopy.Copies.{pure-IsDeepCopy}
use opsgenie_operator.DeepCopy.Elements.{copy_pointer-IsDeepCopy}
use opsgenie_operator.DeepCopy.Flat.{copy_flat-IsDeepCopy}
use opsgenie_operator.DeepCopy.Maps.{copy_map-IsDeepCopy}
use opsgenie_operator.DeepCopy.Fields.{
  OneField, copy_one-IsDeepCopy, TwoFields, copy_two-IsDeepCopy, ThreeFields, copy_three-IsDeepCopy,
}
use opsgenie_operator.DeepCopy.Documented.{Documented, ReferenceEqual, copy_reference-IsDeepCopy}
use opsgenie_operator.DeepCopy.Deep.Resource.{
  ResourceEqual, ResourceListEqual, resource_deep_copy_into-IsDeepCopy,
  resource_list_deep_copy_into-IsDeepCopy,
}
use opsgenie_operator.DeepCopy.Methods.IncidentRule.{
  stakeholder_properties_deep_copy_into, incident_condition_deep_copy_into,
  incident_properties_deep_copy_into, incident_responder_deep_copy_into,
  incident_rule_spec_deep_copy_into, incident_rule_status_deep_copy_into,
  incident_rule_deep_copy_into, incident_rule_list_deep_copy_into,
}

module _ {layout : Layout} where
  abbrev pub StakeholderPropertiesEqual : Equal (Object layout) OpsgenieStakeholderProperties
  StakeholderPropertiesEqual =
      OneField (λ x. x.enable) (λ x a. record x { enable = a }) (PointerEqual {A = Bool} Plain)

  pub stakeholder_properties_deep_copy_into-IsDeepCopy :
      IsDeepCopy {Object = Object layout} StakeholderPropertiesEqual
        stakeholder_properties_deep_copy_into
  unfolding stakeholder_properties_deep_copy_into
  stakeholder_properties_deep_copy_into-IsDeepCopy =
      copy_one-IsDeepCopy (λ x. x.enable) (λ x a. record x { enable = a })
        (PointerEqual {A = Bool} Plain) (copy_pointer (pure {A = Bool})) (λ x a. refl)
        (copy_pointer-IsDeepCopy {A = Bool} Plain pure pure-IsDeepCopy)

  pub incident_condition_deep_copy_into-IsDeepCopy :
      IsDeepCopy {Object = Object layout} Plain incident_condition_deep_copy_into
  unfolding incident_condition_deep_copy_into
  incident_condition_deep_copy_into-IsDeepCopy = pure-IsDeepCopy

  abbrev pub IncidentPropertiesEqual : Equal (Object layout) OpsgenieIncidentProperties
  IncidentPropertiesEqual =
      ThreeFields (λ x. x.tags) (λ x. x.details) (λ x. x.stakeholder_properties)
        (λ x a b c. record x { tags = a; details = b; stakeholder_properties = c })
        (SliceEqual {A = String} Plain) MapEqual StakeholderPropertiesEqual

module _ {layout : Layout} {lib : Library layout} (doc : Documented lib) where
  pub incident_properties_deep_copy_into-IsDeepCopy :
      IsDeepCopy {Object = Object layout} IncidentPropertiesEqual
        (incident_properties_deep_copy_into lib)
  unfolding incident_properties_deep_copy_into
  incident_properties_deep_copy_into-IsDeepCopy =
      copy_three-IsDeepCopy (λ x. x.tags) (λ x. x.details) (λ x. x.stakeholder_properties)
        (λ x a b c. record x { tags = a; details = b; stakeholder_properties = c })
        (SliceEqual {A = String} Plain) MapEqual StakeholderPropertiesEqual (copy_flat String)
        (copy_map lib.range) stakeholder_properties_deep_copy_into
        (record { first = λ x a b c. refl; second = λ x a b c. refl; third = λ x a b c. refl })
        copy_flat-IsDeepCopy (copy_map-IsDeepCopy lib.range doc.range)
        stakeholder_properties_deep_copy_into-IsDeepCopy

module _ {layout : Layout} where
  abbrev pub IncidentResponderEqual : Equal (Object layout) OpsgenieIncidentResponder
  IncidentResponderEqual =
      TwoFields (λ x. x.schedule_ref) (λ x. x.team_ref)
        (λ x a b. record x { schedule_ref = a; team_ref = b }) ReferenceEqual ReferenceEqual

  pub incident_responder_deep_copy_into-IsDeepCopy :
      IsDeepCopy {Object = Object layout} IncidentResponderEqual incident_responder_deep_copy_into
  unfolding incident_responder_deep_copy_into
  incident_responder_deep_copy_into-IsDeepCopy =
      copy_two-IsDeepCopy (λ x. x.schedule_ref) (λ x. x.team_ref)
        (λ x a b. record x { schedule_ref = a; team_ref = b }) ReferenceEqual ReferenceEqual
        copy_reference copy_reference (λ x a b. refl) (λ x a b. refl) copy_reference-IsDeepCopy
        copy_reference-IsDeepCopy

  abbrev pub IncidentRuleSpecEqual : Equal (Object layout) OpsgenieIncidentRuleSpec
  IncidentRuleSpecEqual =
      ThreeFields (λ x. x.service_ref) (λ x. x.conditions) (λ x. x.incident_properties)
        (λ x a b c. record x { service_ref = a; conditions = b; incident_properties = c })
        ReferenceEqual (SliceEqual {A = OpsgenieIncidentCondition} Plain) IncidentPropertiesEqual

module _ {layout : Layout} {lib : Library layout} (doc : Documented lib) where
  pub incident_rule_spec_deep_copy_into-IsDeepCopy :
      IsDeepCopy {Object = Object layout} IncidentRuleSpecEqual
        (incident_rule_spec_deep_copy_into lib)
  unfolding incident_rule_spec_deep_copy_into
  incident_rule_spec_deep_copy_into-IsDeepCopy =
      copy_three-IsDeepCopy (λ x. x.service_ref) (λ x. x.conditions) (λ x. x.incident_properties)
        (λ x a b c. record x { service_ref = a; conditions = b; incident_properties = c })
        ReferenceEqual (SliceEqual {A = OpsgenieIncidentCondition} Plain) IncidentPropertiesEqual
        copy_reference (copy_flat OpsgenieIncidentCondition)
        (incident_properties_deep_copy_into lib)
        (record { first = λ x a b c. refl; second = λ x a b c. refl; third = λ x a b c. refl })
        copy_reference-IsDeepCopy copy_flat-IsDeepCopy
        (incident_properties_deep_copy_into-IsDeepCopy doc)

module _ {layout : Layout} where
  abbrev pub IncidentRuleStatusEqual : Equal (Object layout) OpsgenieIncidentRuleStatus
  IncidentRuleStatusEqual =
      OneField (λ x. x.last_synced_time) (λ x a. record x { last_synced_time = a }) Plain

module _ {layout : Layout} {lib : Library layout} (doc : Documented lib) where
  pub incident_rule_status_deep_copy_into-IsDeepCopy :
      IsDeepCopy {Object = Object layout} IncidentRuleStatusEqual
        (incident_rule_status_deep_copy_into lib)
  unfolding incident_rule_status_deep_copy_into
  incident_rule_status_deep_copy_into-IsDeepCopy =
      copy_one-IsDeepCopy (λ x. x.last_synced_time) (λ x a. record x { last_synced_time = a }) Plain
        lib.copy_time (λ x a. refl) doc.time

  abbrev pub IncidentRuleEqual : Equal (Object layout) (OpsgenieIncidentRule layout)
  IncidentRuleEqual = ResourceEqual doc IncidentRuleSpecEqual IncidentRuleStatusEqual

  pub incident_rule_deep_copy_into-IsDeepCopy :
      IsDeepCopy IncidentRuleEqual (incident_rule_deep_copy_into lib)
  unfolding incident_rule_deep_copy_into
  incident_rule_deep_copy_into-IsDeepCopy =
      resource_deep_copy_into-IsDeepCopy doc IncidentRuleSpecEqual IncidentRuleStatusEqual
        (incident_rule_spec_deep_copy_into lib) (incident_rule_status_deep_copy_into lib)
        (incident_rule_spec_deep_copy_into-IsDeepCopy doc)
        incident_rule_status_deep_copy_into-IsDeepCopy

  abbrev pub IncidentRuleListEqual : Equal (Object layout) (OpsgenieIncidentRuleList layout)
  IncidentRuleListEqual = ResourceListEqual doc IncidentRuleEqual

  pub incident_rule_list_deep_copy_into-IsDeepCopy :
      IsDeepCopy IncidentRuleListEqual (incident_rule_list_deep_copy_into lib)
  unfolding incident_rule_list_deep_copy_into
  incident_rule_list_deep_copy_into-IsDeepCopy =
      resource_list_deep_copy_into-IsDeepCopy doc IncidentRuleEqual
        (incident_rule_deep_copy_into lib) incident_rule_deep_copy_into-IsDeepCopy
