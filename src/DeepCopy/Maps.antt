-- ===== src/DeepCopy/Maps.antt =====
-- The copy of a map is deep, in whatever order its entries are visited.
use mathlib.Core.List.{Nodup, Nodup-cons, Mem, mem-cons_self, mem-cons_of_mem}
use mathlib.Core.Path.{subst}
use opsgenie_operator.Prelude.{
  ℕ, ◌≤◌, String, ◌≡◌, refl, ◌∙◌, inl, inr, List, [], ◌∷◌, ◌++◌, Option, none, some, length,
  get_elem?, map, ◌==◌, string_eq, Bool-cases, arith,
}
use opsgenie_operator.Prelude.Dict.{Assignment, Dict, lookup, insert}
use opsgenie_operator.DeepCopy.Memory.{Stored, or_empty, array_at, copy_entries, copy_map}
use opsgenie_operator.DeepCopy.Equal.{Extends, SameAbove, IsValid, IsSeparate, IsDeepCopy, MapEqual}
use opsgenie_operator.DeepCopy.Laws.{
  Extends-refl, get_elem?_lt, get_elem?_last, get_elem?-set_at, Extends-append, Extends-set_at,
}
use opsgenie_operator.DeepCopy.Copies.{array_at-put, array_at-Extends, array_at-SameAbove}

-- What Go says of `range` over a map: each key comes once, with its value.
pub record IsRange (range : Dict String → Dict String) : Type 0 where
  pub once : (d : Dict String) → Nodup (map (λ e. e.key) (range d))
  pub entries : (d : Dict String) (k : String) → lookup k (range d) ≡ lookup k d

-- The assignments of the loop, in the order of the list.
abbrev assign_all : Dict String → Dict String → Dict String
assign_all d [] = d
assign_all d (e ∷ entries) = assign_all (insert e.key e.value d) entries

-- The first of two values.
abbrev or_else : Option String → Option String → Option String
or_else none v = v
or_else (some u) v = some u

lookup-fresh :
    (k : String) (entries : Dict String)
    → (¬ Mem k (map (λ e. e.key) entries))
    → lookup k entries ≡ none
unfolding lookup
lookup-fresh k [] h = refl
lookup-fresh k (e ∷ entries) h =
    let rest = lookup-fresh k entries (λ m. h (mem-cons_of_mem _ m)) in
    elim (Bool-cases (e.key == k)) [
      | inl same ↦
          let here : e.key ≡ k = ground (arith, same) in
          absurd (h (subst (λ j. Mem j (map (λ x. x.key) (e ∷ entries))) here mem-cons_self))
      | inr other ↦ rw other rest
    ]

lookup-assign_all :
    (k : String) (d entries : Dict String)
    → Nodup (map (λ e. e.key) entries)
    → lookup k (assign_all d entries) ≡ or_else (lookup k entries) (lookup k d)
unfolding lookup insert
lookup-assign_all k d [] h = refl
lookup-assign_all k d (e ∷ entries) h =
    let (fresh, rest) = Nodup-cons.0 h in
    let later = lookup-assign_all k (insert e.key e.value d) entries rest in
    elim (Bool-cases (e.key == k)) [
      | inl same ↦
          let here : e.key ≡ k = ground (arith, same) in
          let gone =
            lookup-fresh k entries (subst (λ j. ¬ Mem j (map (λ x. x.key) entries)) here fresh) in
          later ∙ rw (gone, same) refl
      | inr other ↦ later ∙ rw other refl
    ]

or_else-none : (v : Option String) → or_else v none ≡ v
or_else-none none = refl
or_else-none (some u) = refl

range-entries :
    (range : Dict String → Dict String) (order : IsRange range) (d : Dict String) (k : String)
    → lookup k (assign_all [] (range d)) ≡ lookup k d
unfolding lookup
range-entries range order d k =
    lookup-assign_all k [] (range d) (order.once d)
    ∙ or_else-none (lookup k (range d))
    ∙ order.entries d k

module _ {Object : Type 0} ⦃stored : Stored Object (Assignment String)⦄ where
  MapEqual-IsSeparate : IsSeparate {Object = Object} MapEqual
  MapEqual-IsSeparate = record { kept = kept; lowered = lowered }
    where
      kept :
          (m : List Object) (x : Option ℕ) (n : ℕ) (m' : List Object) (y : Option ℕ)
          (m'' : List Object)
          → SameAbove n m' m''
          → MapEqual m x n m' y
          → MapEqual m x n m'' y
      kept m none n m' none m'' s e = tt
      kept m none n m' (some b) m'' s e = e
      kept m (some a) n m' none m'' s e = e
      kept m (some a) n m' (some b) m'' s e = record {
        source = e.source;
        target = e.target;
        source_there = e.source_there;
        target_there = array_at-SameAbove n m' m'' b e.target_above s e.target_there;
        target_above = e.target_above;
        same_entries = e.same_entries;
      }

      lowered :
          (m : List Object) (x : Option ℕ) (k n : ℕ) (m' : List Object) (y : Option ℕ)
          → k ≤ n
          → MapEqual m x n m' y
          → MapEqual m x k m' y
      lowered m none k n m' none l e = tt
      lowered m none k n m' (some b) l e = e
      lowered m (some a) k n m' none l e = e
      lowered m (some a) k n m' (some b) l e = record {
        source = e.source;
        target = e.target;
        source_there = e.source_there;
        target_there = e.target_there;
        target_above = omega (arith, e.target_above);
        same_entries = e.same_entries;
      }

module _ {Object : Type 0} ⦃stored : Stored Object (Assignment String)⦄
    (range : Dict String → Dict String) (order : IsRange range) where
  copy_entries-Extends :
      (m₀ : List Object) (a : ℕ) (entries : Dict String) (m : List Object)
      → Extends m₀ m
      → length m₀ ≤ a
      → Extends m₀ (copy_entries range a entries m)
  unfolding copy_entries
  copy_entries-Extends m₀ a [] m ext low = ext
  copy_entries-Extends m₀ a (e ∷ entries) m ext low =
      copy_entries-Extends m₀ a entries _ (Extends-set_at m₀ m a _ ext low) low

  copy_entries_filled :
      (a : ℕ) (d entries : Dict String) (m : List Object)
      → get_elem? m a ≡ some (stored.put d)
      → get_elem? (copy_entries range a entries m) a ≡ some (stored.put (assign_all d entries))
  unfolding copy_entries
  copy_entries_filled a d [] m at = at
  copy_entries_filled a d (e ∷ entries) m at =
      let here = array_at-put m a d at in
      rw here (
        copy_entries_filled a (insert e.key e.value d) entries _
          (get_elem?-set_at a _ m (get_elem?_lt m a at)))

  pub copy_map-IsDeepCopy : IsDeepCopy {Object = Object} MapEqual (copy_map range)
  unfolding copy_map
  copy_map-IsDeepCopy = record { separate = MapEqual-IsSeparate; extends = extends; equal = equal }
    where
      extends : (x : Option ℕ) (m : List Object) → Extends m (copy_map range x m).1
      extends none m = Extends-refl m
      extends (some a) m =
          copy_entries-Extends m (length m) (range (or_empty (array_at m a)))
            (m ++ (stored.put [] ∷ [])) (Extends-append m (stored.put [])) (omega arith)

      equal :
          (m₀ m : List Object) (x : Option ℕ)
          → Extends m₀ m
          → IsValid MapEqual m₀ x
          → MapEqual m₀ x (length m) (copy_map range x m).1 (copy_map range x m).0
      equal m₀ m none ext v = tt
      equal m₀ m (some a) ext v =
          let found = array_at-Extends m₀ m a ext v.source_there in
          rw found (record {
            source = v.source;
            target = assign_all [] (range v.source);
            source_there = v.source_there;
            target_there = array_at-put _ (length m) _ (
                copy_entries_filled (length m) [] (range v.source) (m ++ (stored.put [] ∷ []))
                  (get_elem?_last m (stored.put [])));
            target_above = omega arith;
            same_entries = range-entries range order v.source;
          })
