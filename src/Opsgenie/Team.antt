-- ===== src/Opsgenie/Team.antt =====
-- Package team of the SDK.
use opsgenie_operator.Prelude.{String, List}
use opsgenie_operator.Exec.{Call, Reply}
use opsgenie_operator.Opsgenie.Og.{IdentifierType}

-- `username` is `Member.User.Username`.
pub record Member : Type 0 where
  pub username : String
  pub role : String

pub record GetTeamRequest : Type 0 where
  pub identifier_type : IdentifierType
  pub identifier_value : String

pub record GetTeamResult : Type 0 where
  pub id : String
  pub name : String
  pub description : String
  pub members : List Member

pub record CreateTeamRequest : Type 0 where
  pub name : String
  pub description : String
  pub members : List Member

pub record CreateTeamResult : Type 0 where
  pub id : String

-- A field left empty is not sent.
pub record UpdateTeamRequest : Type 0 where
  pub id : String
  pub name : String
  pub description : String
  pub members : List Member

-- `team.Client`. What `Update` answers is not read.
pub record Client (W : Type 0) : Type 0 where
  pub get : GetTeamRequest → Call W (Reply GetTeamResult)
  pub create : CreateTeamRequest → Call W (Reply CreateTeamResult)
  pub update : UpdateTeamRequest → Call W (Reply (Unit {0}))
