-- ===== src/Api/Service.antt =====
-- api/v1beta1/opsgenieservice_types.go
use opsgenie_operator.Prelude.{String, List, Option}
use opsgenie_operator.Kube.{ObjectMeta, LocalObjectReference, Time}

pub record OpsgenieServiceSpec : Type 0 where
  pub name : String
  pub description : String
  pub team_id : String
  pub team_ref : Option LocalObjectReference
  pub tags : List String

pub record OpsgenieServiceStatus : Type 0 where
  pub service_id : String
  pub status : String
  pub resolved_team_id : String
  pub last_synced_time : Time

pub record OpsgenieService : Type 0 where
  pub metadata : ObjectMeta
  pub spec : OpsgenieServiceSpec
  pub status : OpsgenieServiceStatus
