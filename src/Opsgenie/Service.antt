-- ===== src/Opsgenie/Service.antt =====
-- Package service of the SDK: services and their incident rules.
use opsgenie_operator.Prelude.{String, List, Option, Bool}
use opsgenie_operator.Prelude.Dict.{Dict}
use opsgenie_operator.Exec.{Call, Reply}
use opsgenie_operator.Opsgenie.Og.{Condition}

pub record GetRequest : Type 0 where
  pub id : String

-- `GetResult.Service`
pub record Service : Type 0 where
  pub name : String
  pub description : String
  pub tags : List String

pub record CreateRequest : Type 0 where
  pub name : String
  pub description : String
  pub tags : List String
  pub team_id : String

pub record CreateResult : Type 0 where
  pub id : String

pub record UpdateRequest : Type 0 where
  pub id : String
  pub name : String
  pub description : String
  pub tags : List String

pub record StakeholderProperties : Type 0 where
  pub enable : Option Bool
  pub message : String
  pub description : String

pub record IncidentProperties : Type 0 where
  pub message : String
  pub tags : List String
  pub details : Dict String
  pub description : String
  pub priority : String
  pub stakeholder_properties : StakeholderProperties

pub record GetIncidentRulesRequest : Type 0 where
  pub service_id : String

pub record IncidentRuleResult : Type 0 where
  pub id : String

pub record CreateIncidentRuleRequest : Type 0 where
  pub service_id : String
  pub conditions : List Condition
  pub condition_match_type : String
  pub incident_properties : IncidentProperties

pub record UpdateIncidentRuleRequest : Type 0 where
  pub service_id : String
  pub incident_rule_id : String
  pub conditions : List Condition
  pub condition_match_type : String
  pub incident_properties : IncidentProperties

-- `service.Client`, as the service controller and the incident rule controller use it.
pub record Client (W : Type 0) : Type 0 where
  pub get : GetRequest → Call W (Reply Service)
  pub create : CreateRequest → Call W (Reply CreateResult)
  pub update : UpdateRequest → Call W (Reply (Unit {0}))
  pub get_incident_rules : GetIncidentRulesRequest → Call W (Reply (List IncidentRuleResult))
  pub create_incident_rule : CreateIncidentRuleRequest → Call W (Reply CreateResult)
  pub update_incident_rule : UpdateIncidentRuleRequest → Call W (Reply (Unit {0}))
