-- ===== src/DeepCopy/Deep/Runtime.antt =====
-- DeepCopyObject makes deep copies: the copy and the original have no memory in common.
use opsgenie_operator.Prelude.{ℕ, ◌≡◌, ◌≢◌, refl, List, Option, none, some}
use opsgenie_operator.DeepCopy.Types.{Layout}
use opsgenie_operator.DeepCopy.Objects.{Object}
use opsgenie_operator.DeepCopy.Memory.{Pointer, M}
use opsgenie_operator.DeepCopy.Equal.{Equal, IsValid, IsDeepCopy, PointerEqual}
use opsgenie_operator.DeepCopy.Elements.{copy_pointer-IsDeepCopy}
use opsgenie_operator.DeepCopy.Library.{Library}
use opsgenie_operator.DeepCopy.Documented.{Documented}
use opsgenie_operator.DeepCopy.KindArrays.{
  escalation_stored, escalation_list_stored, incident_rule_stored, incident_rule_list_stored,
  schedule_stored, schedule_list_stored, service_stored, service_list_stored, team_stored,
  team_list_stored,
}
use opsgenie_operator.DeepCopy.Methods.Escalation.{
  escalation_deep_copy_into, escalation_deep_copy, escalation_list_deep_copy_into,
  escalation_list_deep_copy,
}
use opsgenie_operator.DeepCopy.Methods.IncidentRule.{
  incident_rule_deep_copy_into, incident_rule_deep_copy, incident_rule_list_deep_copy_into,
  incident_rule_list_deep_copy,
}
use opsgenie_operator.DeepCopy.Methods.Schedule.{
  schedule_deep_copy_into, schedule_deep_copy, schedule_list_deep_copy_into,
  schedule_list_deep_copy,
}
use opsgenie_operator.DeepCopy.Methods.Service.{
  service_deep_copy_into, service_deep_copy, service_list_deep_copy_into, service_list_deep_copy,
}
use opsgenie_operator.DeepCopy.Methods.Team.{
  team_deep_copy_into, team_deep_copy, team_list_deep_copy_into, team_list_deep_copy,
}
use opsgenie_operator.DeepCopy.Deep.Escalation.{
  EscalationEqual, EscalationListEqual, escalation_deep_copy_into-IsDeepCopy,
  escalation_list_deep_copy_into-IsDeepCopy,
}
use opsgenie_operator.DeepCopy.Deep.IncidentRule.{
  IncidentRuleEqual, IncidentRuleListEqual, incident_rule_deep_copy_into-IsDeepCopy,
  incident_rule_list_deep_copy_into-IsDeepCopy,
}
use opsgenie_operator.DeepCopy.Deep.Schedule.{
  ScheduleEqual, ScheduleListEqual, schedule_deep_copy_into-IsDeepCopy,
  schedule_list_deep_copy_into-IsDeepCopy,
}
use opsgenie_operator.DeepCopy.Deep.Service.{
  ServiceEqual, ServiceListEqual, service_deep_copy_into-IsDeepCopy,
  service_list_deep_copy_into-IsDeepCopy,
}
use opsgenie_operator.DeepCopy.Deep.Team.{
  TeamEqual, TeamListEqual, team_deep_copy_into-IsDeepCopy, team_list_deep_copy_into-IsDeepCopy,
}
use opsgenie_operator.DeepCopy.Methods.Runtime.{
  Kind, escalation, escalation_list, incident_rule, incident_rule_list, schedule, schedule_list,
  service, service_list, team, team_list, RuntimeObject, unless_nil, escalation_deep_copy_object,
  escalation_list_deep_copy_object, incident_rule_deep_copy_object,
  incident_rule_list_deep_copy_object, schedule_deep_copy_object, schedule_list_deep_copy_object,
  service_deep_copy_object, service_list_deep_copy_object, team_deep_copy_object,
  team_list_deep_copy_object, deep_copy_object,
}

module _ {layout : Layout} (lib : Library layout) where
  -- The method DeepCopy of a type.
  abbrev pub deep_copy_of : Kind → Option Pointer → M (Object layout) (Option Pointer)
  deep_copy_of escalation = escalation_deep_copy lib
  deep_copy_of escalation_list = escalation_list_deep_copy lib
  deep_copy_of incident_rule = incident_rule_deep_copy lib
  deep_copy_of incident_rule_list = incident_rule_list_deep_copy lib
  deep_copy_of schedule = schedule_deep_copy lib
  deep_copy_of schedule_list = schedule_list_deep_copy lib
  deep_copy_of service = service_deep_copy lib
  deep_copy_of service_list = service_list_deep_copy lib
  deep_copy_of team = team_deep_copy lib
  deep_copy_of team_list = team_list_deep_copy lib

  pub deep_copy_object-unless_nil :
      (k : Kind) (p : Option Pointer) (m : List (Object layout))
      → deep_copy_object lib (record { kind = k; pointer = p }) m
        ≡ (unless_nil k (deep_copy_of k p m).0, (deep_copy_of k p m).1)
  unfolding deep_copy_object escalation_deep_copy_object escalation_list_deep_copy_object
      incident_rule_deep_copy_object incident_rule_list_deep_copy_object schedule_deep_copy_object
      schedule_list_deep_copy_object service_deep_copy_object service_list_deep_copy_object
      team_deep_copy_object team_list_deep_copy_object
  deep_copy_object-unless_nil escalation p m = refl
  deep_copy_object-unless_nil escalation_list p m = refl
  deep_copy_object-unless_nil incident_rule p m = refl
  deep_copy_object-unless_nil incident_rule_list p m = refl
  deep_copy_object-unless_nil schedule p m = refl
  deep_copy_object-unless_nil schedule_list p m = refl
  deep_copy_object-unless_nil service p m = refl
  deep_copy_object-unless_nil service_list p m = refl
  deep_copy_object-unless_nil team p m = refl
  deep_copy_object-unless_nil team_list p m = refl

module _ {layout : Layout} {lib : Library layout} (doc : Documented lib) where
  -- Deep equality of what two pointers to values of this type point to.
  abbrev pub KindEqual : Kind → Equal (Object layout) (Option Pointer)
  KindEqual escalation = PointerEqual (EscalationEqual doc)
  KindEqual escalation_list = PointerEqual (EscalationListEqual doc)
  KindEqual incident_rule = PointerEqual (IncidentRuleEqual doc)
  KindEqual incident_rule_list = PointerEqual (IncidentRuleListEqual doc)
  KindEqual schedule = PointerEqual (ScheduleEqual doc)
  KindEqual schedule_list = PointerEqual (ScheduleListEqual doc)
  KindEqual service = PointerEqual (ServiceEqual doc)
  KindEqual service_list = PointerEqual (ServiceListEqual doc)
  KindEqual team = PointerEqual (TeamEqual doc)
  KindEqual team_list = PointerEqual (TeamListEqual doc)

  -- The object is there, with all that it reaches.
  abbrev pub IsThere : List (Object layout) → RuntimeObject → Type 0
  IsThere m x = IsValid (KindEqual x.kind) m x.pointer

  -- `y` has the type of `x`, is not a nil pointer, is deeply equal to `x`, and all addresses that are
  -- reached from it are at least `n`; or both are nil.
  abbrev pub CopyEqual :
      List (Object layout)
      → RuntimeObject
      → ℕ
      → List (Object layout)
      → Option RuntimeObject
      → Type 0
  CopyEqual m x n m' none = x.pointer ≡ none
  CopyEqual m x n m' (some y) =
      (y.kind ≡ x.kind) × (y.pointer ≢ none) × KindEqual x.kind m x.pointer n m' y.pointer

  pub deep_copy_of-IsDeepCopy : (k : Kind) → IsDeepCopy (KindEqual k) (deep_copy_of lib k)
  unfolding escalation_deep_copy escalation_list_deep_copy incident_rule_deep_copy
      incident_rule_list_deep_copy schedule_deep_copy schedule_list_deep_copy service_deep_copy
      service_list_deep_copy team_deep_copy team_list_deep_copy
  deep_copy_of-IsDeepCopy escalation =
      copy_pointer-IsDeepCopy (EscalationEqual doc) (escalation_deep_copy_into lib)
        (escalation_deep_copy_into-IsDeepCopy doc)
  deep_copy_of-IsDeepCopy escalation_list =
      copy_pointer-IsDeepCopy (EscalationListEqual doc) (escalation_list_deep_copy_into lib)
        (escalation_list_deep_copy_into-IsDeepCopy doc)
  deep_copy_of-IsDeepCopy incident_rule =
      copy_pointer-IsDeepCopy (IncidentRuleEqual doc) (incident_rule_deep_copy_into lib)
        (incident_rule_deep_copy_into-IsDeepCopy doc)
  deep_copy_of-IsDeepCopy incident_rule_list =
      copy_pointer-IsDeepCopy (IncidentRuleListEqual doc) (incident_rule_list_deep_copy_into lib)
        (incident_rule_list_deep_copy_into-IsDeepCopy doc)
  deep_copy_of-IsDeepCopy schedule =
      copy_pointer-IsDeepCopy (ScheduleEqual doc) (schedule_deep_copy_into lib)
        (schedule_deep_copy_into-IsDeepCopy doc)
  deep_copy_of-IsDeepCopy schedule_list =
      copy_pointer-IsDeepCopy (ScheduleListEqual doc) (schedule_list_deep_copy_into lib)
        (schedule_list_deep_copy_into-IsDeepCopy doc)
  deep_copy_of-IsDeepCopy service =
      copy_pointer-IsDeepCopy (ServiceEqual doc) (service_deep_copy_into lib)
        (service_deep_copy_into-IsDeepCopy doc)
  deep_copy_of-IsDeepCopy service_list =
      copy_pointer-IsDeepCopy (ServiceListEqual doc) (service_list_deep_copy_into lib)
        (service_list_deep_copy_into-IsDeepCopy doc)
  deep_copy_of-IsDeepCopy team =
      copy_pointer-IsDeepCopy (TeamEqual doc) (team_deep_copy_into lib)
        (team_deep_copy_into-IsDeepCopy doc)
  deep_copy_of-IsDeepCopy team_list =
      copy_pointer-IsDeepCopy (TeamListEqual doc) (team_list_deep_copy_into lib)
        (team_list_deep_copy_into-IsDeepCopy doc)
