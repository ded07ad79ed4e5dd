-- ===== src/DeepCopy/Flat.antt =====
-- The copy of a slice whose elements have no pointers is deep.
use mathlib.Core.Path.{subst}
use opsgenie_operator.Prelude.{
  ◌≡◌, refl, sym, List, [], ◌∷◌, Option, none, some, length, Pointwise, arith,
}
use opsgenie_operator.DeepCopy.Memory.{Slice, Stored, window, copy_flat}
use opsgenie_operator.DeepCopy.Equal.{Extends, IsValid, IsDeepCopy, Plain, SliceEqual}
use opsgenie_operator.DeepCopy.Laws.{
  Extends-refl, get_elem?_last, take_all, length-window, Extends-append,
}
use opsgenie_operator.DeepCopy.Copies.{
  pure-IsDeepCopy, array_at-put, array_at-Extends, SliceEqual-IsSeparate,
}

module _ {A : Type 0} where
  pub Pointwise-Plain : (xs : List A) → Pointwise (λ x y. y ≡ x) xs xs
  Pointwise-Plain [] = tt
  Pointwise-Plain (x ∷ xs) = (refl, Pointwise-Plain xs)

module _ {Object A : Type 0} ⦃stored : Stored Object A⦄ where
  -- The copy of a slice whose elements have no pointers is deep.
  pub copy_flat-IsDeepCopy : IsDeepCopy {Object = Object} (SliceEqual {A = A} Plain) (copy_flat A)
  unfolding copy_flat
  copy_flat-IsDeepCopy = record {
    separate = SliceEqual-IsSeparate {A = A} Plain pure-IsDeepCopy.separate;
    extends = extends;
    equal = equal;
  }
    where
      extends : (x : Option Slice) (m : List Object) → Extends m (copy_flat A x m).1
      extends none m = Extends-refl m
      extends (some s) m = Extends-append m _

      equal :
          (m₀ m : List Object) (x : Option Slice)
          → Extends m₀ m
          → IsValid (SliceEqual {A = A} Plain) m₀ x
          → SliceEqual {A = A} Plain m₀ x (length m) (copy_flat A x m).1 (copy_flat A x m).0
      equal m₀ m none ext v = tt
      equal m₀ m (some s) ext v =
          let xs = window s v.source in
          let found = array_at-Extends m₀ m s.array ext v.source_there in
          rw found (record {
            source = v.source;
            target = xs;
            source_there = v.source_there;
            target_there = array_at-put _ (length m) xs (get_elem?_last m (stored.put xs));
            source_fits = v.source_fits;
            target_above = omega arith;
            same_len = refl;
            same_elements =
                subst (Pointwise (λ x y. y ≡ x) xs)
                  (sym (take_all s.len xs (length-window s v.source v.source_fits)))
                  (Pointwise-Plain xs);
          })
