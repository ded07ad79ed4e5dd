-- ===== src/IncidentRule/RoundTrip.antt =====
-- What is sent for an incident rule can be read back.
use opsgenie_operator.Prelude.{String, ◌≡◌, refl, ap, List, [], ◌∷◌, Option}
use opsgenie_operator.Kube.{LocalObjectReference}
use opsgenie_operator.Api.IncidentRule.{
  OpsgenieIncidentRule, OpsgenieIncidentRuleSpec, OpsgenieIncidentCondition,
  OpsgenieIncidentProperties,
}
use opsgenie_operator.Opsgenie.Og.{Condition}
use opsgenie_operator.Opsgenie.Service.{
  IncidentProperties, CreateIncidentRuleRequest, UpdateIncidentRuleRequest,
}
use opsgenie_operator.IncidentRule.Requests.{
  map_conditions, map_incident_properties, map_create_incident_rule, map_update_incident_rule,
}

-- The way back, field by field: the conditions, and the incident properties.
abbrev pub read_conditions : List Condition → List OpsgenieIncidentCondition
read_conditions [] = []
read_conditions (c ∷ conditions) =
    record { field = c.field; operation = c.operation; expected_value = c.expected_value }
    ∷ read_conditions conditions

abbrev pub read_properties : IncidentProperties → OpsgenieIncidentProperties
read_properties p = record {
  message = p.message;
  tags = p.tags;
  details = p.details;
  description = p.description;
  priority = p.priority;
  stakeholder_properties = record {
    enable = p.stakeholder_properties.enable;
    message = p.stakeholder_properties.message;
    description = p.stakeholder_properties.description;
  };
}

-- The `spec` of a resource, from a reference to the service and the content of a request.
abbrev pub read_spec :
    Option LocalObjectReference
    → List Condition
    → String
    → IncidentProperties
    → OpsgenieIncidentRuleSpec
read_spec ref conditions match_type properties = record {
  service_ref = ref;
  conditions = read_conditions conditions;
  condition_match_type = match_type;
  incident_properties = read_properties properties;
}

abbrev pub read_create :
    Option LocalObjectReference → CreateIncidentRuleRequest → OpsgenieIncidentRuleSpec
read_create ref q = read_spec ref q.conditions q.condition_match_type q.incident_properties

abbrev pub read_update :
    Option LocalObjectReference → UpdateIncidentRuleRequest → OpsgenieIncidentRuleSpec
read_update ref q = read_spec ref q.conditions q.condition_match_type q.incident_properties

read_conditions-map_conditions :
    (cs : List OpsgenieIncidentCondition) → read_conditions (map_conditions cs) ≡ cs
unfolding map_conditions
read_conditions-map_conditions [] = refl
read_conditions-map_conditions (c ∷ cs) = ap (λ rest. c ∷ rest) (read_conditions-map_conditions cs)

-- Nothing of a rule is lost on the way to Opsgenie: from the request of a creation, or of an update,
-- the whole `spec` of the resource is read back, but for the reference to the service, for which
-- the request has the service's id; and an update names the rule that it is for.
pub map_incident_rule_roundtrip :
    (cr : OpsgenieIncidentRule) (service_id rule_id : String)
    → let q = map_create_incident_rule cr service_id in
      let u = map_update_incident_rule cr service_id rule_id in
      (read_create cr.spec.service_ref q ≡ cr.spec)
      × (read_update cr.spec.service_ref u ≡ cr.spec)
      × (q.service_id ≡ service_id)
      × (u.service_id ≡ service_id)
      × (u.incident_rule_id ≡ rule_id)
unfolding map_create_incident_rule map_update_incident_rule map_incident_properties
map_incident_rule_roundtrip cr service_id rule_id =
    let same = read_conditions-map_conditions cr.spec.conditions in
    (rw same refl, rw same refl, refl, refl, refl)
