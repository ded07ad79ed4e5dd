-- ===== src/Opsgenie/Schedule.antt =====
-- Package schedule of the SDK.
use opsgenie_operator.Prelude.{String, List}
use opsgenie_operator.Exec.{Call, Reply}
use opsgenie_operator.Opsgenie.Og.{IdentifierType, OwnerTeam, Rotation}

pub record GetRequest : Type 0 where
  pub identifier_type : IdentifierType
  pub identifier_value : String

-- `GetResult.Schedule`
pub record Schedule : Type 0 where
  pub id : String
  pub description : String
  pub timezone : String
  pub rotations : List Rotation

pub record CreateRequest : Type 0 where
  pub name : String
  pub description : String
  pub timezone : String
  pub owner_team : OwnerTeam
  pub rotations : List Rotation

pub record CreateResult : Type 0 where
  pub id : String

pub record UpdateRequest : Type 0 where
  pub identifier_type : IdentifierType
  pub identifier_value : String
  pub name : String
  pub description : String
  pub timezone : String
  pub owner_team : OwnerTeam
  pub rotations : List Rotation

-- `schedule.Client`
pub record Client (W : Type 0) : Type 0 where
  pub get : GetRequest → Call W (Reply Schedule)
  pub create : CreateRequest → Call W (Reply CreateResult)
  pub update : UpdateRequest → Call W (Reply (Unit {0}))
