-- ===== src/Api/Schedule.antt =====
-- api/v1beta1/opsgenieschedule_types.go
use opsgenie_operator.Prelude.{String, List, Option, ℤ}
use opsgenie_operator.Kube.{ObjectMeta, Time}

pub record OpsgenieTimeInterval : Type 0 where
  pub start_day : ℤ
  pub end_day : ℤ
  pub start_hour : ℤ
  pub end_hour : ℤ

pub record OpsgenieTimeRestriction : Type 0 where
  pub type : String
  pub intervals : List OpsgenieTimeInterval

pub record OpsgenieParticipant : Type 0 where
  pub type : String
  pub id : String
  pub name : String
  pub username : String

pub record OpsgenieRotation : Type 0 where
  pub name : String
  pub type : String
  pub start_date : String
  pub end_date : String
  pub length : ℤ
  pub participants : List OpsgenieParticipant
  pub time_restriction : Option OpsgenieTimeRestriction

pub record OpsgenieScheduleSpec : Type 0 where
  pub name : String
  pub description : String
  pub time_zone : String
  pub rotations : List OpsgenieRotation
  pub owner_team : String

pub record OpsgenieScheduleStatus : Type 0 where
  pub schedule_id : String
  pub status : String
  pub last_synced_time : Time

pub record OpsgenieSchedule : Type 0 where
  pub metadata : ObjectMeta
  pub spec : OpsgenieScheduleSpec
  pub status : OpsgenieScheduleStatus
