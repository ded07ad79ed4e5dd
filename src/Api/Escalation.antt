-- ===== src/Api/Escalation.antt =====
-- api/v1beta1/opsgenieescalation_types.go
use opsgenie_operator.Prelude.{String, List, Option, ℤ}
use opsgenie_operator.Kube.{ObjectMeta, LocalObjectReference, Time}

pub record OpsgenieEscalationRecipient : Type 0 where
  pub type : String
  pub id : String
  pub username : String
  pub schedule_ref : Option LocalObjectReference
  pub team_ref : Option LocalObjectReference

pub record OpsgenieEscalationRule : Type 0 where
  pub condition : String
  pub notify_type : String
  pub delay_min : ℤ
  pub recipient : OpsgenieEscalationRecipient

pub record OpsgenieEscalationSpec : Type 0 where
  pub name : String
  pub description : String
  pub team_id : String
  pub team_ref : Option LocalObjectReference
  pub rules : List OpsgenieEscalationRule

pub record OpsgenieEscalationStatus : Type 0 where
  pub escalation_id : String
  pub resolved_team_id : String
  pub status : String
  pub last_synced_time : Time

pub record OpsgenieEscalation : Type 0 where
  pub metadata : ObjectMeta
  pub spec : OpsgenieEscalationSpec
  pub status : OpsgenieEscalationStatus
