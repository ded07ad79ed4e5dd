-- ===== src/DeepCopy/Isolation.antt =====
-- A copy and its original have no memory in common: changes of the one do not show in the other.
use opsgenie_operator.Prelude.{ℕ, ◌<◌, ◌≡◌, refl, ◌∙◌, List, Option, none, some, length, get_elem?}
use mathlib.Core.Path.{subst}
use opsgenie_operator.DeepCopy.Types.{Layout}
use opsgenie_operator.DeepCopy.Objects.{Object}
use opsgenie_operator.DeepCopy.Memory.{Stored, Pointer}
use opsgenie_operator.DeepCopy.Equal.{Equal, SameAbove, PointerEqual}
use opsgenie_operator.DeepCopy.Laws.{Extends-refl}
use opsgenie_operator.DeepCopy.KindArrays.{
  escalation_stored, escalation_list_stored, incident_rule_stored, incident_rule_list_stored,
  schedule_stored, schedule_list_stored, service_stored, service_list_stored, team_stored,
  team_list_stored,
}
use opsgenie_operator.DeepCopy.Library.{Library}
use opsgenie_operator.DeepCopy.Documented.{Documented}
use opsgenie_operator.DeepCopy.Methods.Runtime.{
  Kind, escalation, escalation_list, incident_rule, incident_rule_list, schedule, schedule_list,
  service, service_list, team, team_list, RuntimeObject, unless_nil, deep_copy_object,
}
use opsgenie_operator.DeepCopy.Deep.Escalation.{EscalationEqual, EscalationListEqual}
use opsgenie_operator.DeepCopy.Deep.IncidentRule.{IncidentRuleEqual, IncidentRuleListEqual}
use opsgenie_operator.DeepCopy.Deep.Schedule.{ScheduleEqual, ScheduleListEqual}
use opsgenie_operator.DeepCopy.Deep.Service.{ServiceEqual, ServiceListEqual}
use opsgenie_operator.DeepCopy.Deep.Team.{TeamEqual, TeamListEqual}
use opsgenie_operator.DeepCopy.Deep.Runtime.{
  deep_copy_of, KindEqual, IsThere, CopyEqual, deep_copy_of-IsDeepCopy, deep_copy_object-unless_nil,
}

-- `m'` has what is in `m` below the address `n`, unchanged.
abbrev pub SameBelow : {Object : Type 0} → ℕ → List Object → List Object → Type 0
SameBelow n m m' = (i : ℕ) → i < n → get_elem? m' i ≡ get_elem? m i

module _ {Object A : Type 0} ⦃stored : Stored Object A⦄ (E : Equal Object A) where
  -- Only nil is equal to nil.
  PointerEqual_none :
      (m : List Object) (p : Option Pointer) (n : ℕ) (m' : List Object)
      → PointerEqual E m p n m' none
      → p ≡ none
  PointerEqual_none m none n m' e = refl
  PointerEqual_none m (some p) n m' e = absurd e

module _ {layout : Layout} {lib : Library layout} (doc : Documented lib) where
  KindEqual_none :
      (k : Kind) (m : List (Object layout)) (p : Option Pointer) (n : ℕ) (m' : List (Object layout))
      → KindEqual doc k m p n m' none
      → p ≡ none
  KindEqual_none escalation m p n m' e = PointerEqual_none (EscalationEqual doc) m p n m' e
  KindEqual_none escalation_list m p n m' e = PointerEqual_none (EscalationListEqual doc) m p n m' e
  KindEqual_none incident_rule m p n m' e = PointerEqual_none (IncidentRuleEqual doc) m p n m' e
  KindEqual_none incident_rule_list m p n m' e =
      PointerEqual_none (IncidentRuleListEqual doc) m p n m' e
  KindEqual_none schedule m p n m' e = PointerEqual_none (ScheduleEqual doc) m p n m' e
  KindEqual_none schedule_list m p n m' e = PointerEqual_none (ScheduleListEqual doc) m p n m' e
  KindEqual_none service m p n m' e = PointerEqual_none (ServiceEqual doc) m p n m' e
  KindEqual_none service_list m p n m' e = PointerEqual_none (ServiceListEqual doc) m p n m' e
  KindEqual_none team m p n m' e = PointerEqual_none (TeamEqual doc) m p n m' e
  KindEqual_none team_list m p n m' e = PointerEqual_none (TeamListEqual doc) m p n m' e

  unless_nil-CopyEqual :
      (k : Kind) (p : Option Pointer) (m : List (Object layout)) (n : ℕ) (m' : List (Object layout))
      (q : Option Pointer)
      → KindEqual doc k m p n m' q
      → CopyEqual doc m (record { kind = k; pointer = p }) n m' (unless_nil k q)
  unfolding unless_nil
  unless_nil-CopyEqual k p m n m' none e = KindEqual_none k m p n m' e
  unless_nil-CopyEqual k p m n m' (some q) e = (refl, (λ h. cc), e)

  -- Let an object, or a nil pointer, be in memory with all that it reaches, let DeepCopyObject be called
  -- on it, and let what was in memory before be changed afterwards in any way. If the pointer is nil,
  -- the answer is the nil interface. If not, it holds a pointer of the same type, which is not nil,
  -- to an object that is deeply equal to what the original was at the call (its slices and pointers
  -- element by element, its maps key by key), and that reaches only memory that was new. This holds
  -- for the ten kinds, whatever the metadata are and in whatever order `range` visits a map, if the
  -- libraries' DeepCopyInto make deep copies and `range` gives each key once.
  pub deep_copy_object-CopyEqual :
      (x : RuntimeObject) (m later : List (Object layout))
      → IsThere doc m x
      → SameAbove (length m) (deep_copy_object lib x m).1 later
      → CopyEqual doc m x (length m) later (deep_copy_object lib x m).0
  deep_copy_object-CopyEqual x m later there same =
      let deep = deep_copy_of-IsDeepCopy doc x.kind in
      let (q, m') = deep_copy_of lib x.kind x.pointer m in
      rw (deep_copy_object-unless_nil lib x.kind x.pointer m) (
        unless_nil-CopyEqual x.kind x.pointer m (length m) later q (
          deep.separate.kept m x.pointer (length m) m' q later
            (subst (λ v. SameAbove (length m) v.1 later)
              (deep_copy_object-unless_nil lib x.kind x.pointer m) same)
            (deep.equal m m x.pointer (Extends-refl m) there)))

  -- Let an object be in memory with all that it reaches, let DeepCopyObject be called on it, and let
  -- anything be changed afterwards but what was in memory before. Then all that was in memory before
  -- the call is as it was, so the call itself changed nothing there, and the original is deeply equal
  -- to what it was, under the same assumptions about the libraries and `range`.
  pub deep_copy_object-SameBelow :
      (x : RuntimeObject) (m later : List (Object layout))
      → IsThere doc m x
      → SameBelow (length m) (deep_copy_object lib x m).1 later
      → SameBelow (length m) m later × KindEqual doc x.kind m x.pointer 0 later x.pointer
  deep_copy_object-SameBelow x m later there same =
      let deep = deep_copy_of-IsDeepCopy doc x.kind in
      let grown = deep.extends x.pointer m in
      let all : SameBelow (length m) m later = λ i l.
        subst (λ v. SameBelow (length m) v.1 later)
          (deep_copy_object-unless_nil lib x.kind x.pointer m) same i l
        ∙ grown.same i l in
      (all, deep.separate.kept m x.pointer 0 m x.pointer later (λ i _ l. all i l) there)
