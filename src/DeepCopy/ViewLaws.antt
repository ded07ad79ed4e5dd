-- ===== src/DeepCopy/ViewLaws.antt =====
-- Deeply equal objects are the same to a reader.
use opsgenie_operator.Prelude.{
  ℕ, Bool, String, ◌≡◌, refl, ap, ◌∙◌, sym, List, [], ◌∷◌, none, some, map, Pointwise,
}
use opsgenie_operator.Prelude.Dict.{lookup}
use opsgenie_operator.Kube.{LocalObjectReference}
use opsgenie_operator.Api.IncidentRule as IncidentRule
use opsgenie_operator.Api.Schedule as Schedule
use opsgenie_operator.Api.Team as Team
use opsgenie_operator.DeepCopy.Types.{Layout}
use opsgenie_operator.DeepCopy.Objects.{Object}
use opsgenie_operator.DeepCopy.Arrays.{bool_stored, string_stored, entry_stored, reference_stored}
use opsgenie_operator.DeepCopy.PartArrays.{
  escalation_rule_stored, incident_condition_stored, participant_stored, rotation_stored,
  team_member_stored, time_interval_stored, time_restriction_stored,
}
use opsgenie_operator.DeepCopy.Memory.{Slice, Stored, window, cell, elements, or_empty}
use opsgenie_operator.DeepCopy.Equal.{Equal, Plain, SlicesEqual, SliceEqual, PointerEqual, MapEqual}
use opsgenie_operator.DeepCopy.Documented.{ReferenceEqual}
use opsgenie_operator.DeepCopy.Deep.Escalation.{
  EscalationRecipientEqual, EscalationRuleEqual, EscalationSpecEqual,
}
use opsgenie_operator.DeepCopy.Deep.IncidentRule.{
  StakeholderPropertiesEqual, IncidentPropertiesEqual, IncidentRuleSpecEqual,
}
use opsgenie_operator.DeepCopy.Deep.Schedule.{
  TimeRestrictionEqual, RotationEqual, ScheduleSpecEqual,
}
use opsgenie_operator.DeepCopy.Deep.Service.{ServiceSpecEqual}
use opsgenie_operator.DeepCopy.Deep.Team.{TeamSpecEqual}
use opsgenie_operator.DeepCopy.Values.{
  View, plain, first, items, target, reference, entry, recipient, escalation_rule, escalation_spec,
  stakeholder, properties, rule_spec, time_restriction, rotation, schedule_spec, service_spec,
  team_spec,
}
use opsgenie_operator.DeepCopy.Views.{
  recipient_view, escalation_rule_view, escalation_spec_view, stakeholder_view, properties_view,
  rule_spec_view, time_restriction_view, rotation_view, schedule_spec_view, service_spec_view,
  team_spec_view,
}

-- A view that cannot tell deeply equal values apart.
abbrev pub Respects : {Object A V : Type 0} → Equal Object A → View Object A V → Type 0
Respects {Object = Object} {A = A} E v =
    (m : List Object) (x : A) (n : ℕ) (m' : List Object) (y : A) → E m x n m' y → v m' y ≡ v m x

module _ {Object A : Type 0} where
  pub plain-Respects : Respects {Object = Object} {A = A} Plain plain
  plain-Respects m x n m' y e = e

module _ {Object A V : Type 0} ⦃stored : Stored Object A⦄ (E : Equal Object A) (v : View Object A V)
    (same : Respects E v) where
  map_same :
      (m : List Object) (n : ℕ) (m' : List Object) (xs ys : List A)
      → Pointwise (λ x y. E m x n m' y) xs ys
      → map (v m') ys ≡ map (v m) xs
  map_same m n m' [] [] h = refl
  map_same m n m' [] (y ∷ ys) h = absurd h
  map_same m n m' (x ∷ xs) [] h = absurd h
  map_same m n m' (x ∷ xs) (y ∷ ys) h = λ i. same m x n m' y h.0 i ∷ map_same m n m' xs ys h.1 i

  elements_same :
      (m : List Object) (s : Slice) (n : ℕ) (m' : List Object) (t : Slice)
      → SlicesEqual E m s n m' t
      → map (v m') (elements t m') ≡ map (v m) (elements s m)
  elements_same m s n m' t e =
      ap (λ o. map (v m') (window t (or_empty o))) e.target_there
      ∙ map_same m n m' (window s e.source) (window t e.target) e.same_elements
      ∙ sym (ap (λ o. map (v m) (window s (or_empty o))) e.source_there)

  pub items-Respects : Respects (SliceEqual E) (items v)
  items-Respects m none n m' none e = refl
  items-Respects m none n m' (some t) e = absurd e
  items-Respects m (some s) n m' none e = absurd e
  items-Respects m (some s) n m' (some t) e = elements_same m s n m' t e

  pub target-Respects : Respects (PointerEqual E) (target v)
  target-Respects m none n m' none e = refl
  target-Respects m none n m' (some q) e = absurd e
  target-Respects m (some p) n m' none e = absurd e
  target-Respects m (some p) n m' (some q) e = ap first (elements_same m (cell p) n m' (cell q) e)

module _ {layout : Layout} where
  reference-Respects : Respects {Object = Object layout} ReferenceEqual reference
  reference-Respects = target-Respects {A = LocalObjectReference} Plain plain plain-Respects

  entry-Respects : Respects {Object = Object layout} MapEqual entry
  entry-Respects m none n m' none e = refl
  entry-Respects m none n m' (some b) e = absurd e
  entry-Respects m (some a) n m' none e = absurd e
  entry-Respects m (some a) n m' (some b) e = λ i k.
      (ap (λ o. lookup k (or_empty o)) e.target_there
          ∙ e.same_entries k
          ∙ sym (ap (λ o. lookup k (or_empty o)) e.source_there))
        i

  recipient_view-Respects :
      Respects {Object = Object layout} EscalationRecipientEqual recipient_view
  recipient_view-Respects m x n m' y e =
      let a = reference-Respects m x.schedule_ref n m' y.schedule_ref e.0 in
      let b = reference-Respects m x.team_ref n m' y.team_ref e.1 in
      ap (λ z. recipient z (reference m' y.schedule_ref) (reference m' y.team_ref)) e.2
      ∙ (λ i. recipient x (a i) (b i))

  escalation_rule_view-Respects :
      Respects {Object = Object layout} EscalationRuleEqual escalation_rule_view
  escalation_rule_view-Respects m x n m' y e =
      let a = recipient_view-Respects m x.recipient n m' y.recipient e.0 in
      ap (λ z. escalation_rule z (recipient_view m' y.recipient)) e.1
      ∙ (λ i. escalation_rule x (a i))

  pub escalation_spec_view-Respects :
      Respects {Object = Object layout} EscalationSpecEqual escalation_spec_view
  escalation_spec_view-Respects m x n m' y e =
      let a = reference-Respects m x.team_ref n m' y.team_ref e.0 in
      let b =
        items-Respects EscalationRuleEqual escalation_rule_view escalation_rule_view-Respects m
          x.rules n m' y.rules e.1 in
      ap (λ z. escalation_spec z (reference m' y.team_ref) (items escalation_rule_view m' y.rules))
        e.2
      ∙ (λ i. escalation_spec x (a i) (b i))

  stakeholder_view-Respects :
      Respects {Object = Object layout} StakeholderPropertiesEqual stakeholder_view
  stakeholder_view-Respects m x n m' y e =
      let a = target-Respects {A = Bool} Plain plain plain-Respects m x.enable n m' y.enable e.0 in
      ap (λ z. stakeholder z (target (plain {A = Bool}) m' y.enable)) e.1
      ∙ (λ i. stakeholder x (a i))

  properties_view-Respects :
      Respects {Object = Object layout} IncidentPropertiesEqual properties_view
  properties_view-Respects m x n m' y e =
      let a = items-Respects {A = String} Plain plain plain-Respects m x.tags n m' y.tags e.0 in
      let b = entry-Respects m x.details n m' y.details e.1 in
      let c =
        stakeholder_view-Respects m x.stakeholder_properties n m' y.stakeholder_properties e.2 in
      ap
        (λ z.
          properties z (items (plain {A = String}) m' y.tags) (entry m' y.details)
            (stakeholder_view m' y.stakeholder_properties))
        e.3
      ∙ (λ i. properties x (a i) (b i) (c i))

  pub rule_spec_view-Respects :
      Respects {Object = Object layout} IncidentRuleSpecEqual rule_spec_view
  rule_spec_view-Respects m x n m' y e =
      let a = reference-Respects m x.service_ref n m' y.service_ref e.0 in
      let b =
        items-Respects {A = IncidentRule.OpsgenieIncidentCondition} Plain plain plain-Respects m
          x.conditions n m' y.conditions e.1 in
      let c = properties_view-Respects m x.incident_properties n m' y.incident_properties e.2 in
      ap
        (λ z.
          rule_spec z (reference m' y.service_ref)
            (items (plain {A = IncidentRule.OpsgenieIncidentCondition}) m' y.conditions)
            (properties_view m' y.incident_properties))
        e.3
      ∙ (λ i. rule_spec x (a i) (b i) (c i))

  time_restriction_view-Respects :
      Respects {Object = Object layout} TimeRestrictionEqual time_restriction_view
  time_restriction_view-Respects m x n m' y e =
      let a =
        items-Respects {A = Schedule.OpsgenieTimeInterval} Plain plain plain-Respects m x.intervals
          n m' y.intervals e.0 in
      ap
        (λ z. time_restriction z (items (plain {A = Schedule.OpsgenieTimeInterval}) m' y.intervals))
        e.1
      ∙ (λ i. time_restriction x (a i))

  rotation_view-Respects : Respects {Object = Object layout} RotationEqual rotation_view
  rotation_view-Respects m x n m' y e =
      let a =
        items-Respects {A = Schedule.OpsgenieParticipant} Plain plain plain-Respects m
          x.participants n m' y.participants e.0 in
      let b =
        target-Respects TimeRestrictionEqual time_restriction_view time_restriction_view-Respects m
          x.time_restriction n m' y.time_restriction e.1 in
      ap
        (λ z.
          rotation z (items (plain {A = Schedule.OpsgenieParticipant}) m' y.participants)
            (target time_restriction_view m' y.time_restriction))
        e.2
      ∙ (λ i. rotation x (a i) (b i))

  pub schedule_spec_view-Respects :
      Respects {Object = Object layout} ScheduleSpecEqual schedule_spec_view
  schedule_spec_view-Respects m x n m' y e =
      let a =
        items-Respects RotationEqual rotation_view rotation_view-Respects m x.rotations n m'
          y.rotations e.0 in
      ap (λ z. schedule_spec z (items rotation_view m' y.rotations)) e.1
      ∙ (λ i. schedule_spec x (a i))

  pub service_spec_view-Respects :
      Respects {Object = Object layout} ServiceSpecEqual service_spec_view
  service_spec_view-Respects m x n m' y e =
      let a = reference-Respects m x.team_ref n m' y.team_ref e.0 in
      let b = items-Respects {A = String} Plain plain plain-Respects m x.tags n m' y.tags e.1 in
      ap (λ z. service_spec z (reference m' y.team_ref) (items (plain {A = String}) m' y.tags)) e.2
      ∙ (λ i. service_spec x (a i) (b i))

  pub team_spec_view-Respects : Respects {Object = Object layout} TeamSpecEqual team_spec_view
  team_spec_view-Respects m x n m' y e =
      let a =
        items-Respects {A = Team.OpsgenieTeamMember} Plain plain plain-Respects m x.members n m'
          y.members e.0 in
      ap (λ z. team_spec z (items (plain {A = Team.OpsgenieTeamMember}) m' y.members)) e.1
      ∙ (λ i. team_spec x (a i))
