-- ===== src/DeepCopy/Values.antt =====
-- What a program that only reads sees of a resource: the specs and statuses of Api. Its reads go
-- through pointers and slices, and cannot tell where these point to.
use opsgenie_operator.Prelude.{ℕ, Bool, String, List, [], ◌∷◌, Option, none, some, map}
use opsgenie_operator.Prelude.Dict.{lookup}
use opsgenie_operator.Kube.{LocalObjectReference}
use opsgenie_operator.Api.Escalation as Escalation
use opsgenie_operator.Api.IncidentRule as IncidentRule
use opsgenie_operator.Api.Schedule as Schedule
use opsgenie_operator.Api.Service as Service
use opsgenie_operator.Api.Team as Team
use opsgenie_operator.DeepCopy.Types.{
  Layout, OpsgenieEscalationRecipient, OpsgenieEscalationRule, OpsgenieEscalationSpec,
  OpsgenieStakeholderProperties, OpsgenieIncidentProperties, OpsgenieIncidentRuleSpec,
  OpsgenieTimeRestriction, OpsgenieRotation, OpsgenieScheduleSpec, OpsgenieServiceSpec,
  OpsgenieTeamSpec,
}
use opsgenie_operator.DeepCopy.Objects.{Object}
use opsgenie_operator.DeepCopy.Arrays.{bool_stored, string_stored, entry_stored, reference_stored}
use opsgenie_operator.DeepCopy.PartArrays.{
  escalation_rule_stored, incident_condition_stored, participant_stored, rotation_stored,
  team_member_stored, time_interval_stored, time_restriction_stored,
}
use opsgenie_operator.DeepCopy.KindArrays.{
  escalation_stored, escalation_list_stored, incident_rule_stored, incident_rule_list_stored,
  schedule_stored, schedule_list_stored, service_stored, service_list_stored, team_stored,
  team_list_stored,
}
use opsgenie_operator.DeepCopy.Memory.{Slice, Pointer, Stored, cell, elements, array_at, or_empty}

-- A value of type `V` that is read from memory, beginning at an `A`.
abbrev pub View : Type 0 → Type 0 → Type 0 → Type 0
View Object A V = List Object → A → V

module _ {Object A : Type 0} where
  abbrev pub plain : View Object A A
  plain m x = x

module _ {A : Type 0} where
  abbrev pub first : List A → Option A
  first [] = none
  first (x ∷ xs) = some x

module _ {Object A V : Type 0} ⦃stored : Stored Object A⦄ (v : View Object A V) where
  -- The elements of a slice. An empty slice and nil have none.
  abbrev pub items : View Object (Option Slice) (List V)
  items m none = []
  items m (some s) = map (v m) (elements s m)

  abbrev pub target : View Object (Option Pointer) (Option V)
  target m none = none
  target m (some p) = first (map (v m) (elements (cell p) m))

module _ {layout : Layout} where
  abbrev pub reference : View (Object layout) (Option Pointer) (Option LocalObjectReference)
  reference = target plain

  -- A map is what it has for each key.
  abbrev pub entry : View (Object layout) (Option ℕ) (String → Option String)
  entry m none k = none
  entry m (some a) k = lookup k (or_empty (array_at m a))

-- Each struct with what its slices and pointers lead to.
abbrev pub recipient :
    OpsgenieEscalationRecipient
    → Option LocalObjectReference
    → Option LocalObjectReference
    → Escalation.OpsgenieEscalationRecipient
recipient x a b = record {
  type = x.type;
  id = x.id;
  username = x.username;
  schedule_ref = a;
  team_ref = b;
}

abbrev pub escalation_rule :
    OpsgenieEscalationRule
    → Escalation.OpsgenieEscalationRecipient
    → Escalation.OpsgenieEscalationRule
escalation_rule x a = record {
  condition = x.condition;
  notify_type = x.notify_type;
  delay_min = x.delay_min;
  recipient = a;
}

abbrev pub escalation_spec :
    OpsgenieEscalationSpec
    → Option LocalObjectReference
    → List Escalation.OpsgenieEscalationRule
    → Escalation.OpsgenieEscalationSpec
escalation_spec x a b = record {
  name = x.name;
  description = x.description;
  team_id = x.team_id;
  team_ref = a;
  rules = b;
}

abbrev pub stakeholder :
    OpsgenieStakeholderProperties → Option Bool → IncidentRule.OpsgenieStakeholderProperties
stakeholder x a = record { message = x.message; description = x.description; enable = a }

abbrev pub properties :
    OpsgenieIncidentProperties
    → List String
    → (String → Option String)
    → IncidentRule.OpsgenieStakeholderProperties
    → IncidentRule.OpsgenieIncidentProperties × (String → Option String)
properties x a b c = (
  record {
    message = x.message;
    description = x.description;
    priority = x.priority;
    tags = a;
    details = [];
    stakeholder_properties = c;
  },
  b,
)

abbrev pub rule_spec :
    OpsgenieIncidentRuleSpec
    → Option LocalObjectReference
    → List IncidentRule.OpsgenieIncidentCondition
    → (IncidentRule.OpsgenieIncidentProperties × (String → Option String))
    → IncidentRule.OpsgenieIncidentRuleSpec × (String → Option String)
rule_spec x a b c = (
  record {
    condition_match_type = x.condition_match_type;
    service_ref = a;
    conditions = b;
    incident_properties = c.0;
  },
  c.1,
)

abbrev pub time_restriction :
    OpsgenieTimeRestriction → List Schedule.OpsgenieTimeInterval → Schedule.OpsgenieTimeRestriction
time_restriction x a = record { type = x.type; intervals = a }

abbrev pub rotation :
    OpsgenieRotation
    → List Schedule.OpsgenieParticipant
    → Option Schedule.OpsgenieTimeRestriction
    → Schedule.OpsgenieRotation
rotation x a b = record {
  name = x.name;
  type = x.type;
  start_date = x.start_date;
  end_date = x.end_date;
  length = x.length;
  participants = a;
  time_restriction = b;
}

abbrev pub schedule_spec :
    OpsgenieScheduleSpec → List Schedule.OpsgenieRotation → Schedule.OpsgenieScheduleSpec
schedule_spec x a = record {
  name = x.name;
  description = x.description;
  time_zone = x.time_zone;
  owner_team = x.owner_team;
  rotations = a;
}

abbrev pub service_spec :
    OpsgenieServiceSpec → Option LocalObjectReference → List String → Service.OpsgenieServiceSpec
service_spec x a b = record {
  name = x.name;
  description = x.description;
  team_id = x.team_id;
  team_ref = a;
  tags = b;
}

abbrev pub team_spec : OpsgenieTeamSpec → List Team.OpsgenieTeamMember → Team.OpsgenieTeamSpec
team_spec x a = record { name = x.name; description = x.description; members = a }
