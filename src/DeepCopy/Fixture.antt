-- ===== src/DeepCopy/Fixture.antt =====
-- Libraries for the tests: metadata with a map of labels, and an order of `range` that gives the
-- last assignment of each key.
use mathlib.Core.List.{
  Nodup, Nodup-cons, Mem, Mem-prop, mem-cons_self, mem-cons_of_mem, eq-or-mem_of_mem-cons,
  not-mem-nil, Pairwise,
}
use mathlib.Core.Path.{subst}
use mathlib.Core.Logic.Or
use mathlib.Core.HLevel.{⊥_prop}
use opsgenie_operator.Prelude.{
  ℕ, String, ◌≡◌, ◌≢◌, refl, ◌∙◌, List, [], ◌∷◌, Option, map, Bool, ◌==◌, string_eq, if◌then◌else◌,
  Bool-cases, inl, inr, true, false, arith,
}
use opsgenie_operator.Prelude.Dict.{Dict, lookup}
use opsgenie_operator.DeepCopy.Types.{Layout}
use opsgenie_operator.DeepCopy.Memory.{pure, copy_map}
use opsgenie_operator.DeepCopy.Equal.{Plain, MapEqual}
use opsgenie_operator.DeepCopy.Copies.{pure-IsDeepCopy}
use opsgenie_operator.DeepCopy.Maps.{IsRange, copy_map-IsDeepCopy}
use opsgenie_operator.DeepCopy.Arrays.{entry_stored}
use opsgenie_operator.DeepCopy.Library.{Library}
use opsgenie_operator.DeepCopy.Documented.{Documented}

abbrev keys : Dict String → List String
keys d = map (λ e. e.key) d

unfoldable without : String → Dict String → Dict String
without k [] = []
without k (e ∷ d) = let rest = without k d in if e.key == k then rest else e ∷ rest

unfoldable pub latest : Dict String → Dict String
unfolding without
latest [] = []
latest (e ∷ d) = e ∷ without e.key (latest d)

lookup-without : (k j : String) (d : Dict String) → j ≢ k → lookup j (without k d) ≡ lookup j d
unfolding lookup without
lookup-without k j [] h = refl
lookup-without k j (e ∷ d) h = let rest = lookup-without k j d h in grind (arith, rest)

mem-without : (k j : String) (d : Dict String) → Mem j (keys (without k d)) → Mem j (keys d)
unfolding without
mem-without k j [] h = h
mem-without k j (e ∷ d) h = step (mem-without k j d) (e.key == k) h
  where
    step :
        (Mem j (keys (without k d)) → Mem j (keys d))
        → (b : Bool) → Mem j (keys (if b then without k d else e ∷ without k d))
        → Mem j (e.key ∷ keys d)
    step earlier true h = mem-cons_of_mem e.key (earlier h)
    step earlier false h =
        Or.elim Mem-prop (eq-or-mem_of_mem-cons h)
          (λ same. subst (λ x. Mem j (x ∷ keys d)) same mem-cons_self)
          (λ m. mem-cons_of_mem e.key (earlier m))

not-mem-without : (k : String) (d : Dict String) → ¬ Mem k (keys (without k d))
unfolding without
not-mem-without k [] h = not-mem-nil h
not-mem-without k (e ∷ d) h = step (not-mem-without k d) (e.key == k) refl h
  where
    step :
        (¬ Mem k (keys (without k d)))
        → (b : Bool) → (e.key == k) ≡ b
        → ¬ Mem k (keys (if b then without k d else e ∷ without k d))
    step earlier true same h = earlier h
    step earlier false other h =
        Or.elim ⊥_prop (eq-or-mem_of_mem-cons h) (λ same. ground (arith, same, other)) earlier

Nodup-without : (k : String) (d : Dict String) → Nodup (keys d) → Nodup (keys (without k d))
unfolding without
Nodup-without k [] h = h
Nodup-without k (e ∷ d) h = step (Nodup-without k d (Nodup-cons.0 h).1) (e.key == k)
  where
    step :
        Nodup (keys (without k d))
        → (b : Bool) → Nodup (keys (if b then without k d else e ∷ without k d))
    step earlier true = earlier
    step earlier false = Nodup-cons.1 (λ m. (Nodup-cons.0 h).0 (mem-without k e.key d m), earlier)

latest_once : (d : Dict String) → Nodup (keys (latest d))
unfolding latest
latest_once [] = Pairwise.nil
latest_once (e ∷ d) =
    Nodup-cons.1 (not-mem-without e.key (latest d), Nodup-without e.key (latest d) (latest_once d))

latest_entries : (d : Dict String) (k : String) → lookup k (latest d) ≡ lookup k d
unfolding latest lookup
latest_entries [] k = refl
latest_entries (e ∷ d) k =
    let rest = latest_entries d k in
    elim (Bool-cases (e.key == k)) [
      | inl same ↦ rw same refl
      | inr other ↦
          rw other (lookup-without e.key k (latest d) (λ h. ground (arith, h, other)) ∙ rest)
    ]

pub latest-IsRange : IsRange latest
latest-IsRange = record { once = latest_once; entries = latest_entries }

-- The metadata of a resource is its map of labels, that of a list is a version.
abbrev pub labelled : Layout
labelled = record { ObjectMeta = Option ℕ; ListMeta = String; Foreign = Unit }

abbrev pub library : Library labelled
library = record {
  copy_object_meta = copy_map latest;
  copy_list_meta = pure;
  copy_time = pure;
  range = latest;
}

abbrev pub documented : Documented library
documented = record {
  ObjectMetaEqual = MapEqual;
  ListMetaEqual = Plain;
  object_meta = copy_map-IsDeepCopy latest latest-IsRange;
  list_meta = pure-IsDeepCopy;
  time = pure-IsDeepCopy;
  range = latest-IsRange;
}
