-- ===== src/Api/IncidentRule.antt =====
-- api/v1beta1/opsgenieincidentrule_types.go
use opsgenie_operator.Prelude.{String, List, Option, Bool}
use opsgenie_operator.Prelude.Dict.{Dict}
use opsgenie_operator.Kube.{ObjectMeta, LocalObjectReference, Time}

pub record OpsgenieIncidentCondition : Type 0 where
  pub field : String
  pub operation : String
  pub expected_value : String

pub record OpsgenieStakeholderProperties : Type 0 where
  pub enable : Option Bool
  pub message : String
  pub description : String

pub record OpsgenieIncidentProperties : Type 0 where
  pub message : String
  pub tags : List String
  pub details : Dict String
  pub description : String
  pub priority : String
  pub stakeholder_properties : OpsgenieStakeholderProperties

pub record OpsgenieIncidentRuleSpec : Type 0 where
  pub service_ref : Option LocalObjectReference
  pub conditions : List OpsgenieIncidentCondition
  pub condition_match_type : String
  pub incident_properties : OpsgenieIncidentProperties

pub record OpsgenieIncidentRuleStatus : Type 0 where
  pub rule_id : String
  pub status : String
  pub last_synced_time : Time

pub record OpsgenieIncidentRule : Type 0 where
  pub metadata : ObjectMeta
  pub spec : OpsgenieIncidentRuleSpec
  pub status : OpsgenieIncidentRuleStatus
