-- ===== src/Service/Comparison.antt =====
-- What `equalStringSlices` decides.
use mathlib.Core.List.{
  Mem, Subset, Nodup, Perm, cons-subset, mem-cons, mem-cons_self, mem-cons_of_mem, not-mem-nil,
}
use mathlib.Core.List.Perm
use mathlib.Core.Logic.Or
use mathlib.Core.Bool.{Bool-set}
use mathlib.Core.HLevel.{⊥_prop}
use opsgenie_operator.Prelude.{
  String, Bool, true, false, ◌≡◌, ◌≢◌, ◌↔◌, ◌⊎◌, inl, inr, refl, sym, List, [], ◌∷◌, nat_eq,
  string_eq, ◌==◌, arith, Bool-cases,
}
use opsgenie_operator.Prelude.Dict.{Dict, lookup, insert, lookup-insert}
use opsgenie_operator.Prelude.Pigeonhole.{perm_of_Nodup, length-perm}
use opsgenie_operator.Service.Tags.{is_set, string_set, are_all_set, equal_string_slices}

-- A value is in the set exactly when it was there before or is in the list.
set_of_mem :
    (k : String) (m : Dict Bool) (a : List String)
    → (is_set (lookup k m) ≡ true) ⊎ Mem k a
    → is_set (lookup k (string_set m a)) ≡ true
unfolding string_set
set_of_mem k m [] (inl h) = h
set_of_mem k m [] (inr p) = absurd (not-mem-nil p)
set_of_mem k m (val ∷ a) (inl h) =
    set_of_mem k (insert val true m) a (inl (rw lookup-insert (ground arith)))
set_of_mem k m (val ∷ a) (inr p) =
    Or.elim (Bool-set _ _) (mem-cons.0 p)
      (λ e. set_of_mem k (insert val true m) a (inl (rw lookup-insert (ground arith))))
      (λ q. set_of_mem k (insert val true m) a (inr q))

mem_of_set :
    (k : String) (m : Dict Bool) (a : List String)
    → is_set (lookup k (string_set m a)) ≡ true
    → is_set (lookup k m) ≡ false
    → Mem k a
unfolding string_set
mem_of_set k m [] h fresh = cc
mem_of_set k m (val ∷ a) h fresh = elim (Bool-cases (val == k)) [
  | inl same ↦ mem-cons.1 (Or.inl (ground arith))
  | inr other ↦
      mem-cons_of_mem val (mem_of_set k (insert val true m) a h (rw lookup-insert (ground arith)))
]

are_all_set-eq-true : (a b : List String) → (are_all_set (string_set [] a) b ≡ true) ↔ Subset b a
unfolding are_all_set lookup
are_all_set-eq-true a [] = (λ h x p. absurd (not-mem-nil p), λ h. refl)
are_all_set-eq-true a (val ∷ b) = (
  λ h.
      cons-subset.1
        (mem_of_set val [] a (ground arith) refl, (are_all_set-eq-true a b).0 (ground arith)),
  λ sub.
      let (here, rest) = cons-subset.0 sub in
      rw (set_of_mem val [] a (inr here)) ((are_all_set-eq-true a b).1 rest),
)

-- If the second slice has no repetition, then the comparison says that the slices are equal exactly
-- when they have the same elements as often, in any order.
pub equal_string_slices-eq-true :
    (a b : List String) → Nodup b → (equal_string_slices a b ≡ true) ↔ Perm a b
unfolding equal_string_slices
equal_string_slices-eq-true a b d = (
  λ h. Perm.symm (perm_of_Nodup b a d ((are_all_set-eq-true a b).0 (ground arith)) (ground arith)),
  λ p. ground (arith, length-perm a b p, (are_all_set-eq-true a b).1 (Perm.subset (Perm.symm p))),
)

-- The same slice, with its elements in any order, is always found equal.
pub equal_string_slices-perm : (a b : List String) → Perm a b → equal_string_slices a b ≡ true
unfolding equal_string_slices
equal_string_slices-perm a b p =
    ground (arith, length-perm a b p, (are_all_set-eq-true a b).1 (Perm.subset (Perm.symm p)))

-- Two different tags are found equal to one of them twice, but not the other way round; and they
-- have not the same elements.
pub equal_string_slices_asymmetric :
    (x y : String)
    → x ≢ y
    → (equal_string_slices (x ∷ y ∷ []) (x ∷ x ∷ []) ≡ true)
      × (equal_string_slices (x ∷ x ∷ []) (x ∷ y ∷ []) ≡ false)
      × (¬ Perm (x ∷ y ∷ []) (x ∷ x ∷ []))
unfolding equal_string_slices lookup insert
equal_string_slices_asymmetric x y differ =
    (ground arith, ground arith, λ p. not_x (Perm.subset p y (mem-cons_of_mem x mem-cons_self)))
  where
    not_x : ¬ Mem y (x ∷ x ∷ [])
    not_x p =
        Or.elim ⊥_prop (mem-cons.0 p) (λ e. differ (sym e))
          (λ q. Or.elim ⊥_prop (mem-cons.0 q) (λ e. differ (sym e)) not-mem-nil)
