-- ===== src/DeepCopy/Refinement.antt =====
-- DeepCopyObject, over memory, is the identity on what a reader sees of an object.
use opsgenie_operator.Prelude.{ℕ, ◌≡◌, refl, ap, ◌∙◌, List, Option, none, some, length}
use opsgenie_operator.DeepCopy.Types.{Layout}
use opsgenie_operator.DeepCopy.Objects.{Object}
use opsgenie_operator.DeepCopy.KindArrays.{
  escalation_stored, escalation_list_stored, incident_rule_stored, incident_rule_list_stored,
  schedule_stored, schedule_list_stored, service_stored, service_list_stored, team_stored,
  team_list_stored,
}
use opsgenie_operator.DeepCopy.Memory.{Stored, Pointer}
use opsgenie_operator.DeepCopy.Equal.{Equal, SameAbove}
use opsgenie_operator.DeepCopy.Library.{Library}
use opsgenie_operator.DeepCopy.Documented.{Documented}
use opsgenie_operator.DeepCopy.Methods.Runtime.{
  Kind, escalation, escalation_list, incident_rule, incident_rule_list, schedule, schedule_list,
  service, service_list, team, team_list, RuntimeObject, deep_copy_object,
}
use opsgenie_operator.DeepCopy.Deep.Resource.{ResourceEqual, ResourceListEqual}
use opsgenie_operator.DeepCopy.Deep.Escalation.{
  EscalationSpecEqual, EscalationStatusEqual, EscalationEqual, EscalationListEqual,
}
use opsgenie_operator.DeepCopy.Deep.IncidentRule.{
  IncidentRuleSpecEqual, IncidentRuleStatusEqual, IncidentRuleEqual, IncidentRuleListEqual,
}
use opsgenie_operator.DeepCopy.Deep.Schedule.{
  ScheduleSpecEqual, ScheduleStatusEqual, ScheduleEqual, ScheduleListEqual,
}
use opsgenie_operator.DeepCopy.Deep.Service.{
  ServiceSpecEqual, ServiceStatusEqual, ServiceEqual, ServiceListEqual,
}
use opsgenie_operator.DeepCopy.Deep.Team.{TeamSpecEqual, TeamStatusEqual, TeamEqual, TeamListEqual}
use opsgenie_operator.DeepCopy.Deep.Runtime.{KindEqual, IsThere, CopyEqual}
use opsgenie_operator.DeepCopy.Isolation.{deep_copy_object-CopyEqual}
use opsgenie_operator.DeepCopy.Values.{View, plain}
use opsgenie_operator.DeepCopy.Views.{
  resource_view, list_view, value, seen, escalation_spec_view, rule_spec_view, schedule_spec_view,
  service_spec_view, team_spec_view,
}
use opsgenie_operator.DeepCopy.ViewLaws.{
  Respects, items-Respects, target-Respects, escalation_spec_view-Respects, rule_spec_view-Respects,
  schedule_spec_view-Respects, service_spec_view-Respects, team_spec_view-Respects,
}

module _ {layout : Layout} {lib : Library layout} (doc : Documented lib) where
  module _ {A V Status : Type 0} (E : Equal (Object layout) A) (F : Equal (Object layout) Status)
      (v : View (Object layout) A V) where
    resource_view-Respects :
        Respects E v → Respects F plain → Respects (ResourceEqual doc E F) (resource_view v)
    resource_view-Respects same same_status m x n m' y e =
        λ i. (same m x.spec n m' y.spec e.1 i, same_status m x.status n m' y.status e.2 i)

  module _ {A V : Type 0} ⦃stored : Stored (Object layout) A⦄ (E : Equal (Object layout) A)
      (v : View (Object layout) A V) where
    list_view-Respects : Respects E v → Respects (ResourceListEqual doc E) (list_view v)
    list_view-Respects same m x n m' y e = items-Respects E v same m x.items n m' y.items e.1

  escalation_status-Respects : Respects {Object = Object layout} EscalationStatusEqual plain
  escalation_status-Respects m x n m' y e = e.1 ∙ ap (λ t. record x { last_synced_time = t }) e.0

  escalation-Respects : Respects (EscalationEqual doc) (resource_view escalation_spec_view)
  escalation-Respects =
      resource_view-Respects EscalationSpecEqual EscalationStatusEqual escalation_spec_view
        escalation_spec_view-Respects escalation_status-Respects

  incident_rule_status-Respects : Respects {Object = Object layout} IncidentRuleStatusEqual plain
  incident_rule_status-Respects m x n m' y e = e.1 ∙ ap (λ t. record x { last_synced_time = t }) e.0

  incident_rule-Respects : Respects (IncidentRuleEqual doc) (resource_view rule_spec_view)
  incident_rule-Respects =
      resource_view-Respects IncidentRuleSpecEqual IncidentRuleStatusEqual rule_spec_view
        rule_spec_view-Respects incident_rule_status-Respects

  schedule_status-Respects : Respects {Object = Object layout} ScheduleStatusEqual plain
  schedule_status-Respects m x n m' y e = e.1 ∙ ap (λ t. record x { last_synced_time = t }) e.0

  schedule-Respects : Respects (ScheduleEqual doc) (resource_view schedule_spec_view)
  schedule-Respects =
      resource_view-Respects ScheduleSpecEqual ScheduleStatusEqual schedule_spec_view
        schedule_spec_view-Respects schedule_status-Respects

  service_status-Respects : Respects {Object = Object layout} ServiceStatusEqual plain
  service_status-Respects m x n m' y e = e.1 ∙ ap (λ t. record x { last_synced_time = t }) e.0

  service-Respects : Respects (ServiceEqual doc) (resource_view service_spec_view)
  service-Respects =
      resource_view-Respects ServiceSpecEqual ServiceStatusEqual service_spec_view
        service_spec_view-Respects service_status-Respects

  team_status-Respects : Respects {Object = Object layout} TeamStatusEqual plain
  team_status-Respects m x n m' y e = e.1 ∙ ap (λ t. record x { last_synced_time = t }) e.0

  team-Respects : Respects (TeamEqual doc) (resource_view team_spec_view)
  team-Respects =
      resource_view-Respects TeamSpecEqual TeamStatusEqual team_spec_view team_spec_view-Respects
        team_status-Respects

  value-Respects : (k : Kind) → Respects (KindEqual doc k) (value k)
  value-Respects escalation =
      target-Respects (EscalationEqual doc) (resource_view escalation_spec_view) escalation-Respects
  value-Respects escalation_list =
      target-Respects (EscalationListEqual doc) (list_view (resource_view escalation_spec_view)) (
        list_view-Respects (EscalationEqual doc) (resource_view escalation_spec_view)
          escalation-Respects)
  value-Respects incident_rule =
      target-Respects (IncidentRuleEqual doc) (resource_view rule_spec_view) incident_rule-Respects
  value-Respects incident_rule_list =
      target-Respects (IncidentRuleListEqual doc) (list_view (resource_view rule_spec_view)) (
        list_view-Respects (IncidentRuleEqual doc) (resource_view rule_spec_view)
          incident_rule-Respects)
  value-Respects schedule =
      target-Respects (ScheduleEqual doc) (resource_view schedule_spec_view) schedule-Respects
  value-Respects schedule_list =
      target-Respects (ScheduleListEqual doc) (list_view (resource_view schedule_spec_view)) (
        list_view-Respects (ScheduleEqual doc) (resource_view schedule_spec_view) schedule-Respects)
  value-Respects service =
      target-Respects (ServiceEqual doc) (resource_view service_spec_view) service-Respects
  value-Respects service_list =
      target-Respects (ServiceListEqual doc) (list_view (resource_view service_spec_view))
        (list_view-Respects (ServiceEqual doc) (resource_view service_spec_view) service-Respects)
  value-Respects team = target-Respects (TeamEqual doc) (resource_view team_spec_view) team-Respects
  value-Respects team_list =
      target-Respects (TeamListEqual doc) (list_view (resource_view team_spec_view))
        (list_view-Respects (TeamEqual doc) (resource_view team_spec_view) team-Respects)

  seen-CopyEqual :
      (x : RuntimeObject) (p : Pointer) (m : List (Object layout)) (n : ℕ)
      (later : List (Object layout)) (y : Option RuntimeObject)
      → x.pointer ≡ some p
      → CopyEqual doc m x n later y
      → seen later y ≡ seen m (some x)
  seen-CopyEqual x p m n later none h e = cc
  seen-CopyEqual x p m n later (some y) h (same, there, equal) =
      ap (λ k. some (k, value k later y.pointer)) same
      ∙ ap (λ v. some (x.kind, v)) (value-Respects x.kind m x.pointer n later y.pointer equal)

  -- Let an object be in memory with all that it reaches, let DeepCopyObject be called on it, and let what
  -- was in memory before be changed afterwards in any way. Then a reader sees in the answer what it
  -- saw in the original at the call: the same kind, and the same spec and status, or list of these,
  -- with a map as what it has for each key. This is for any metadata, which are left out, under the
  -- assumption that the libraries' DeepCopyInto make deep copies and `range` gives each key once.
  pub deep_copy_object-seen :
      (k : Kind) (p : Pointer) (m later : List (Object layout))
      → IsThere doc m (record { kind = k; pointer = some p })
      → SameAbove
          (length m)
          (deep_copy_object lib (record { kind = k; pointer = some p }) m).1
          later
      → seen later (deep_copy_object lib (record { kind = k; pointer = some p }) m).0
        ≡ seen m (some (record { kind = k; pointer = some p }))
  deep_copy_object-seen k p m later there same =
      seen-CopyEqual (record { kind = k; pointer = some p }) p m (length m) later
        (deep_copy_object lib (record { kind = k; pointer = some p }) m).0 refl
        (deep_copy_object-CopyEqual doc (record { kind = k; pointer = some p }) m later there same)
