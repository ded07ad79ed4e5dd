-- ===== src/Opsgenie/Escalation.antt =====
-- Package escalation of the SDK.
use opsgenie_operator.Prelude.{String, List, ℕ}
use opsgenie_operator.Exec.{Call, Reply}
use opsgenie_operator.Opsgenie.Og.{IdentifierType, OwnerTeam, Participant}

pub record GetRequest : Type 0 where
  pub identifier_type : IdentifierType
  pub identifier : String

-- `delay` is `Delay.TimeAmount`, a `uint32`.
pub record Rule : Type 0 where
  pub condition : String
  pub notify_type : String
  pub delay : ℕ
  pub recipient : Participant

-- `GetResult.Escalation`
pub record Escalation : Type 0 where
  pub id : String
  pub name : String
  pub description : String
  pub rules : List Rule

-- `escalation.RuleRequest` has the fields of `Rule`.
pub record CreateRequest : Type 0 where
  pub name : String
  pub description : String
  pub rules : List Rule
  pub owner_team : OwnerTeam

pub record CreateResult : Type 0 where
  pub id : String

pub record UpdateRequest : Type 0 where
  pub identifier_type : IdentifierType
  pub identifier : String
  pub name : String
  pub description : String
  pub rules : List Rule
  pub owner_team : OwnerTeam

-- `escalation.Client`
pub record Client (W : Type 0) : Type 0 where
  pub get : GetRequest → Call W (Reply Escalation)
  pub create : CreateRequest → Call W (Reply CreateResult)
  pub update : UpdateRequest → Call W (Reply (Unit {0}))
