-- ===== src/DeepCopy/Types.antt =====
-- The structs of api/v1beta1 as they lie in memory: a slice or a pointer is where its elements are.
-- Structs without slices or pointers are those of Api.
use opsgenie_operator.Prelude.{String, Option, ℕ, ℤ}
use opsgenie_operator.DeepCopy.Memory.{Slice, Pointer}
use opsgenie_operator.Api.Escalation.{OpsgenieEscalationStatus}
use opsgenie_operator.Api.IncidentRule.{OpsgenieIncidentRuleStatus}
use opsgenie_operator.Api.Schedule.{OpsgenieScheduleStatus}
use opsgenie_operator.Api.Service.{OpsgenieServiceStatus}
use opsgenie_operator.Api.Team.{OpsgenieTeamStatus}

-- Types of the Kubernetes libraries, and the objects that only their own values point to.
pub record Layout : Type 1 where
  pub ObjectMeta : Type 0
  pub ListMeta : Type 0
  pub Foreign : Type 0

-- `metav1.TypeMeta`
pub record TypeMeta : Type 0 where
  pub kind : String
  pub api_version : String

pub record OpsgenieEscalationRecipient : Type 0 where
  pub type : String
  pub id : String
  pub username : String
  pub schedule_ref : Option Pointer
  pub team_ref : Option Pointer

pub record OpsgenieEscalationRule : Type 0 where
  pub condition : String
  pub notify_type : String
  pub delay_min : ℤ
  pub recipient : OpsgenieEscalationRecipient

pub record OpsgenieEscalationSpec : Type 0 where
  pub name : String
  pub description : String
  pub team_id : String
  pub team_ref : Option Pointer
  pub rules : Option Slice

pub record OpsgenieStakeholderProperties : Type 0 where
  pub enable : Option Pointer
  pub message : String
  pub description : String

pub record OpsgenieIncidentProperties : Type 0 where
  pub message : String
  pub tags : Option Slice
  pub details : Option ℕ
  pub description : String
  pub priority : String
  pub stakeholder_properties : OpsgenieStakeholderProperties

pub record OpsgenieIncidentResponder : Type 0 where
  pub type : String
  pub id : String
  pub schedule_ref : Option Pointer
  pub team_ref : Option Pointer

pub record OpsgenieIncidentRuleSpec : Type 0 where
  pub service_ref : Option Pointer
  pub conditions : Option Slice
  pub condition_match_type : String
  pub incident_properties : OpsgenieIncidentProperties

pub record OpsgenieTimeRestriction : Type 0 where
  pub type : String
  pub intervals : Option Slice

pub record OpsgenieRotation : Type 0 where
  pub name : String
  pub type : String
  pub start_date : String
  pub end_date : String
  pub length : ℤ
  pub participants : Option Slice
  pub time_restriction : Option Pointer

pub record OpsgenieScheduleSpec : Type 0 where
  pub name : String
  pub description : String
  pub time_zone : String
  pub rotations : Option Slice
  pub owner_team : String

pub record OpsgenieServiceSpec : Type 0 where
  pub name : String
  pub description : String
  pub team_id : String
  pub team_ref : Option Pointer
  pub tags : Option Slice

pub record OpsgenieTeamSpec : Type 0 where
  pub name : String
  pub description : String
  pub members : Option Slice

-- The kinds of resource differ in their spec and their status only, and their lists in the type of the
-- elements.
module _ (layout : Layout) where
  pub record Resource (Spec Status : Type 0) : Type 0 where
    pub type_meta : TypeMeta
    pub metadata : layout.ObjectMeta
    pub spec : Spec
    pub status : Status

  pub record ResourceList (Item : Type 0) : Type 0 where
    pub type_meta : TypeMeta
    pub metadata : layout.ListMeta
    pub items : Option Slice

  abbrev pub OpsgenieEscalation : Type 0
  OpsgenieEscalation = Resource OpsgenieEscalationSpec OpsgenieEscalationStatus

  abbrev pub OpsgenieIncidentRule : Type 0
  OpsgenieIncidentRule = Resource OpsgenieIncidentRuleSpec OpsgenieIncidentRuleStatus

  abbrev pub OpsgenieSchedule : Type 0
  OpsgenieSchedule = Resource OpsgenieScheduleSpec OpsgenieScheduleStatus

  abbrev pub OpsgenieService : Type 0
  OpsgenieService = Resource OpsgenieServiceSpec OpsgenieServiceStatus

  abbrev pub OpsgenieTeam : Type 0
  OpsgenieTeam = Resource OpsgenieTeamSpec OpsgenieTeamStatus

  abbrev pub OpsgenieEscalationList : Type 0
  OpsgenieEscalationList = ResourceList OpsgenieEscalation

  abbrev pub OpsgenieIncidentRuleList : Type 0
  OpsgenieIncidentRuleList = ResourceList OpsgenieIncidentRule

  abbrev pub OpsgenieScheduleList : Type 0
  OpsgenieScheduleList = ResourceList OpsgenieSchedule

  abbrev pub OpsgenieServiceList : Type 0
  OpsgenieServiceList = ResourceList OpsgenieService

  abbrev pub OpsgenieTeamList : Type 0
  OpsgenieTeamList = ResourceList OpsgenieTeam
