-- ===== src/DeepCopy/Tests.antt =====
-- Copies of an incident rule and of a list of escalations, and the theorems at these.
use opsgenie_operator.Prelude.{
  ℕ, ◌+◌, ◌≤◌, ◌≡◌, refl, String, string_eq, true, List, [], ◌∷◌, some, pos, length, arith,
}
use opsgenie_operator.Prelude.Dict.{Assignment, insert}
use opsgenie_operator.Api.IncidentRule.{OpsgenieIncidentCondition}
use opsgenie_operator.DeepCopy.Types.{OpsgenieIncidentRule}
use opsgenie_operator.DeepCopy.Objects.{
  Object, incident_rules, entries, references, incident_conditions, strings, bools,
}
use opsgenie_operator.DeepCopy.Memory.{
  Slice, Pointer, Stored, drop, copy_pointer, copy_flat, copy_map, copy_entries, copy_each,
  copy_slice, store_element, array_at, window, set_at, cell,
}
use opsgenie_operator.DeepCopy.Equal.{Plain, SlicesEqual, MapsEqual}
use opsgenie_operator.DeepCopy.Flat.{Pointwise-Plain}
use opsgenie_operator.DeepCopy.Laws.{get_elem?-set_at_other}
use opsgenie_operator.DeepCopy.Arrays.{reference_stored, string_stored, bool_stored, entry_stored}
use opsgenie_operator.DeepCopy.PartArrays.{incident_condition_stored}
use opsgenie_operator.DeepCopy.KindArrays.{
  incident_rule_stored, escalation_stored, escalation_list_stored,
}
use opsgenie_operator.DeepCopy.Library.{copy_reference}
use opsgenie_operator.DeepCopy.Methods.Resource.{resource_deep_copy_into}
use opsgenie_operator.DeepCopy.Methods.IncidentRule.{
  incident_rule_deep_copy, incident_rule_deep_copy_into, incident_rule_spec_deep_copy_into,
  incident_properties_deep_copy_into, stakeholder_properties_deep_copy_into,
  incident_rule_status_deep_copy_into,
}
use opsgenie_operator.DeepCopy.Methods.Runtime.{
  incident_rule, RuntimeObject, unless_nil, incident_rule_deep_copy_object, deep_copy_object,
}
use opsgenie_operator.DeepCopy.Deep.Runtime.{IsThere, CopyEqual, KindEqual}
use opsgenie_operator.DeepCopy.Isolation.{
  SameBelow, deep_copy_object-CopyEqual, deep_copy_object-SameBelow,
}
use opsgenie_operator.DeepCopy.Views.{seen}
use opsgenie_operator.DeepCopy.Refinement.{deep_copy_object-seen}
use opsgenie_operator.DeepCopy.Fixture.{labelled, library, documented, latest}

-- A slice or a pointer to values that have no pointers, at an array that is there.
module _ {A : Type 0} ⦃stored : Stored (Object labelled) A⦄ where
  plain :
      (m : List (Object labelled)) (s : Slice) (xs : List A)
      → array_at m s.array ≡ some xs
      → s.start + s.len ≤ length xs
      → SlicesEqual {A = A} Plain m s 0 m s
  plain m s xs at fits = record {
    source = xs;
    target = xs;
    source_there = at;
    target_there = at;
    source_fits = fits;
    target_above = omega arith;
    same_len = refl;
    same_elements = Pointwise-Plain (window s xs);
  }

same_map :
    (m : List (Object labelled)) (a : ℕ) (d : List (Assignment String))
    → array_at m a ≡ some d
    → MapsEqual m a 0 m a
same_map m a d at = record {
  source = d;
  target = d;
  source_there = at;
  target_there = at;
  target_above = omega arith;
  same_entries = λ k. refl;
}

abbrev at_index : ℕ → ℕ → Pointer
at_index a i = record { array = a; index = i }

abbrev rule : OpsgenieIncidentRule labelled
rule = record {
  type_meta = record { kind = "OpsgenieIncidentRule"; api_version = "opsgenie.macpaw.dev/v1beta1" };
  metadata = some 1;
  spec = record {
    service_ref = some (at_index 2 0);
    conditions = some (record { array = 3; start = 0; len = 2 });
    condition_match_type = "match-all-conditions";
    incident_properties = record {
      message = "down";
      tags = some (record { array = 4; start = 1; len = 2 });
      details = some 5;
      description = "";
      priority = "P1";
      stakeholder_properties = record {
        enable = some (at_index 6 0);
        message = "We know";
        description = "";
      };
    };
  };
  status = record { rule_id = "R1"; status = "Active"; last_synced_time = pos 7 };
}

abbrev conditions : List OpsgenieIncidentCondition
conditions =
    record { field = "priority"; operation = "equals"; expected_value = "P1" }
    ∷ record { field = "tags"; operation = "contains"; expected_value = "web" }
    ∷ []

abbrev rule_memory : List (Object labelled)
rule_memory =
    incident_rules (rule ∷ [])
    ∷ entries (record { key = "app"; value = "web" } ∷ [])
    ∷ references (record { name = "web" } ∷ [])
    ∷ incident_conditions conditions
    ∷ strings ("old" ∷ "web" ∷ "prod" ∷ [])
    ∷ entries (
        record { key = "a"; value = "2" }
        ∷ record { key = "b"; value = "3" }
        ∷ record { key = "a"; value = "1" }
        ∷ [])
    ∷ bools (true ∷ [])
    ∷ []

abbrev the_rule : RuntimeObject
the_rule = record { kind = incident_rule; pointer = some (at_index 0 0) }

rule_copied :
    (deep_copy_object library the_rule rule_memory).0
    ≡ some (record { kind = incident_rule; pointer = some (at_index 7 0) })
unfolding deep_copy_object incident_rule_deep_copy_object incident_rule_deep_copy unless_nil
    copy_pointer
rule_copied = refl

-- The new objects are the rule, its labels, the reference, the conditions, and then these.
rule_copies :
    drop 11 (deep_copy_object library the_rule rule_memory).1
    ≡ strings ("web" ∷ "prod" ∷ [])
      ∷ entries (record { key = "b"; value = "3" } ∷ record { key = "a"; value = "2" } ∷ [])
      ∷ bools (true ∷ [])
      ∷ []
unfolding deep_copy_object incident_rule_deep_copy_object incident_rule_deep_copy
    incident_rule_deep_copy_into resource_deep_copy_into incident_rule_spec_deep_copy_into
    incident_properties_deep_copy_into stakeholder_properties_deep_copy_into
    incident_rule_status_deep_copy_into unless_nil copy_pointer copy_reference copy_flat copy_map
    copy_entries copy_each copy_slice store_element latest insert string_eq
rule_copies = refl

the_rule-IsThere : IsThere documented rule_memory the_rule
the_rule-IsThere = record {
  source = rule ∷ [];
  target = rule ∷ [];
  source_there = refl;
  target_there = refl;
  source_fits = omega arith;
  target_above = omega arith;
  same_len = refl;
  same_elements = (
    (
      same_map rule_memory 1 _ refl,
      (
        plain rule_memory (cell (at_index 2 0)) _ refl (omega arith),
        plain rule_memory (record { array = 3; start = 0; len = 2 }) _ refl (omega arith),
        (
          plain rule_memory (record { array = 4; start = 1; len = 2 }) _ refl (omega arith),
          same_map rule_memory 5 _ refl,
          (plain rule_memory (cell (at_index 6 0)) _ refl (omega arith), refl),
          refl,
        ),
        refl,
      ),
      (refl, refl),
      refl,
    ),
    tt,
  );
}

-- The copy stays what it is when the conditions of the original are changed.
abbrev edited : List (Object labelled)
edited = set_at 3 (incident_conditions []) (deep_copy_object library the_rule rule_memory).1

deep_copy_object-CopyEqual_example :
    CopyEqual documented rule_memory the_rule 7 edited
      (deep_copy_object library the_rule rule_memory).0
deep_copy_object-CopyEqual_example =
    deep_copy_object-CopyEqual documented the_rule rule_memory edited the_rule-IsThere (λ i l h.
      get_elem?-set_at_other 3 i (incident_conditions [])
        (deep_copy_object library the_rule rule_memory).1 (λ e. omega (arith, l, e)))

-- The original stays what it is when the copy is changed.
abbrev replaced : List (Object labelled)
replaced = set_at 10 (incident_conditions []) (deep_copy_object library the_rule rule_memory).1

deep_copy_object-SameBelow_example :
    SameBelow 7 rule_memory replaced
    × KindEqual documented incident_rule rule_memory
        (some (at_index 0 0))
        0
        replaced
        (some (at_index 0 0))
deep_copy_object-SameBelow_example =
    deep_copy_object-SameBelow documented the_rule rule_memory replaced the_rule-IsThere (λ i l.
      get_elem?-set_at_other 10 i (incident_conditions [])
        (deep_copy_object library the_rule rule_memory).1 (λ e. omega (arith, l, e)))

deep_copy_object-seen_example :
    seen edited (deep_copy_object library the_rule rule_memory).0 ≡ seen rule_memory (some the_rule)
deep_copy_object-seen_example =
    deep_copy_object-seen documented incident_rule (at_index 0 0) rule_memory edited
      the_rule-IsThere
      (λ i l h.
        get_elem?-set_at_other 3 i (incident_conditions [])
          (deep_copy_object library the_rule rule_memory).1 (λ e. omega (arith, l, e)))
