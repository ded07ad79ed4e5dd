-- ===== src/Api/Team.antt =====
-- api/v1beta1/opsgenieteam_types.go
use opsgenie_operator.Prelude.{String, List}
use opsgenie_operator.Kube.{ObjectMeta, Time}

pub record OpsgenieTeamMember : Type 0 where
  pub user_id : String
  pub role : String

pub record OpsgenieTeamSpec : Type 0 where
  pub name : String
  pub description : String
  pub members : List OpsgenieTeamMember

pub record OpsgenieTeamStatus : Type 0 where
  pub team_id : String
  pub status : String
  pub last_synced_time : Time

pub record OpsgenieTeam : Type 0 where
  pub metadata : ObjectMeta
  pub spec : OpsgenieTeamSpec
  pub status : OpsgenieTeamStatus
