-- ===== src/IncidentRule/Requests.antt =====
-- `mapIncidentProperties`, `mapConditions`, `mapCreateIncidentRule`, `mapUpdateIncidentRule`.
use opsgenie_operator.Prelude.{String, List, [], ◌∷◌}
use opsgenie_operator.Api.IncidentRule.{OpsgenieIncidentRule, OpsgenieIncidentCondition}
use opsgenie_operator.Opsgenie.Og.{Condition}
use opsgenie_operator.Opsgenie.Service.{
  IncidentProperties, CreateIncidentRuleRequest, UpdateIncidentRuleRequest,
}

unfoldable pub map_incident_properties : OpsgenieIncidentRule → IncidentProperties
map_incident_properties cr = record {
  message = p.message;
  tags = p.tags;
  details = p.details;
  description = p.description;
  priority = p.priority;
  stakeholder_properties = record {
    enable = p.stakeholder_properties.enable;
    message = p.stakeholder_properties.message;
    description = p.stakeholder_properties.description;
  };
}
  where
    open cr.spec use {incident_properties as p}

abbrev pub map_condition : OpsgenieIncidentCondition → Condition
map_condition c = record {
  field = c.field;
  operation = c.operation;
  expected_value = c.expected_value;
}

-- The loop of `mapConditions`.
unfoldable pub map_conditions : List OpsgenieIncidentCondition → List Condition
map_conditions [] = []
map_conditions (c ∷ conditions) = map_condition c ∷ map_conditions conditions

unfoldable pub map_create_incident_rule : OpsgenieIncidentRule → String → CreateIncidentRuleRequest
unfolding map_conditions map_incident_properties
map_create_incident_rule cr service_id = record {
  service_id = service_id;
  conditions = map_conditions cr.spec.conditions;
  condition_match_type = cr.spec.condition_match_type;
  incident_properties = map_incident_properties cr;
}

unfoldable pub map_update_incident_rule :
    OpsgenieIncidentRule → String → String → UpdateIncidentRuleRequest
unfolding map_conditions map_incident_properties
map_update_incident_rule cr service_id rule_id = record {
  service_id = service_id;
  incident_rule_id = rule_id;
  conditions = map_conditions cr.spec.conditions;
  condition_match_type = cr.spec.condition_match_type;
  incident_properties = map_incident_properties cr;
}
