-- ===== src/Opsgenie/Og.antt =====
-- Package og of the SDK, and the ways to identify an object.
use opsgenie_operator.Prelude.{String, ℕ, List, Option}
use opsgenie_operator.Kube.{Time}

pub data IdentifierType : Type 0 where
  id name : IdentifierType

pub data Day : Type 0 where
  monday tuesday wednesday thursday friday saturday sunday : Day

pub record OwnerTeam : Type 0 where
  pub id : String
  pub name : String

pub record Participant : Type 0 where
  pub type : String
  pub id : String
  pub name : String
  pub username : String

-- The four numbers are `uint32`.
pub record Restriction : Type 0 where
  pub start_day : Day
  pub end_day : Day
  pub start_hour : ℕ
  pub start_min : ℕ
  pub end_hour : ℕ
  pub end_min : ℕ

pub record TimeRestriction : Type 0 where
  pub type : String
  pub restriction_list : List Restriction

-- `length` is a `uint32`, `start_date` a pointer.
pub record Rotation : Type 0 where
  pub name : String
  pub type : String
  pub start_date : Option Time
  pub length : ℕ
  pub participants : List Participant
  pub time_restriction : Option TimeRestriction

pub record Condition : Type 0 where
  pub field : String
  pub operation : String
  pub expected_value : String
