-- ===== src/DeepCopy/Elements.antt =====
-- The copies of slices and pointers are deep if those of their elements are.
use mathlib.Core.Path.{subst}
use mathlib.Core.List.{append-nil}
use opsgenie_operator.Prelude.{
  ℕ, suc, ◌+◌, ◌≤◌, ◌≡◌, refl, ap, ◌∙◌, sym, List, [], ◌∷◌, ◌++◌, Option, none, some, length,
  get_elem?, Pointwise, Pointwise-mono, length-Pointwise, All, arith,
}
use opsgenie_operator.Startup.Slices.{write_at}
use opsgenie_operator.DeepCopy.Memory.{
  Slice, Pointer, Stored, M, window, cell, or_empty, set_at, store_element, copy_each, copy_slice,
  copy_pointer,
}
use opsgenie_operator.DeepCopy.Equal.{
  Extends, SameAbove, Equal, IsValid, IsDeepCopy, SlicesEqual, SliceEqual, PointerEqual,
}
use opsgenie_operator.DeepCopy.Laws.{
  Extends-refl, Extends-trans, SameAbove-trans, get_elem?_lt, length-append_one, get_elem?_last,
  length-set_at, get_elem?-set_at, write_at-end, append-assoc_one, take_all, length-window,
  Extends-append, Extends-set_at, SameAbove-set_at, Pointwise-self,
}
use opsgenie_operator.DeepCopy.Loop.{copy_list, copy_each-Extends, copy_each-copy_list}
use opsgenie_operator.DeepCopy.Copies.{array_at-put, SliceEqual-IsSeparate, PointerEqual-IsSeparate}

module _ {Object A : Type 0} ⦃stored : Stored Object A⦄ where
  module _ (E : Equal Object A) (f : A → M Object A) (deep : IsDeepCopy E f) where
    -- What the loop over the elements reaches, from a memory `m` whose array `a` has `ys`.
    record Filled (m₀ : List Object) (a : ℕ) (ys xs : List A) (m m' : List Object) : Type 0 where
      zs : List A
      array : get_elem? m' a ≡ some (stored.put (ys ++ zs))
      equal : Pointwise (λ x z. E m₀ x (suc a) m' z) xs zs
      above : SameAbove (suc a) m m'
      longer : length m ≤ length m'

    copy_list-Filled :
        (m₀ : List Object) (a i : ℕ) (ys xs : List A) (m : List Object)
        → Extends m₀ m
        → length m₀ ≤ a
        → get_elem? m a ≡ some (stored.put ys)
        → length ys ≡ i
        → All (IsValid E m₀) xs
        → Filled m₀ a ys xs m (copy_list f a i xs m)
    unfolding copy_list
    copy_list-Filled m₀ a i ys [] m ext low at len valid = record {
      zs = [];
      array = rw (append-nil ys) at;
      equal = tt;
      above = λ j h k. refl;
      longer = omega arith;
    }
    copy_list-Filled m₀ a i ys (x ∷ xs) m ext low at len (here, there) =
        let (y, m₁) = f x m in
        let grown = deep.extends x m in
        let at₁ : get_elem? m₁ a ≡ some (stored.put ys) = grown.same a (get_elem?_lt m a at) ∙ at in
        let m₂ = set_at a (stored.put (ys ++ (y ∷ []))) m₁ in
        let step : store_element a i y m₁ ≡ m₂ =
          ap (λ zs. set_at a (stored.put zs) m₁)
            (ap (λ o. write_at i y (or_empty o)) (array_at-put m₁ a ys at₁)
              ∙ write_at-end i y ys len) in
        let same_length = length-set_at a (stored.put (ys ++ (y ∷ []))) m₁ in
        let ext₂ =
          Extends-set_at m₀ m₁ a (stored.put (ys ++ (y ∷ []))) (Extends-trans m₀ m m₁ ext grown)
            low in
        let at₂ = get_elem?-set_at a (stored.put (ys ++ (y ∷ []))) m₁ (get_elem?_lt m₁ a at₁) in
        let rest =
          copy_list-Filled m₀ a (i + 1) (ys ++ (y ∷ [])) xs m₂ ext₂ low at₂
            (omega (arith, length-append_one ys y)) there in
        let changed = SameAbove-set_at a (stored.put (ys ++ (y ∷ []))) m₁ in
        let fresh =
          deep.separate.lowered m₀ x (suc a) (length m) m₁ y (omega (arith, get_elem?_lt m a at))
            (deep.equal m₀ m x ext here) in
        subst (λ v. Filled m₀ a ys (x ∷ xs) m (copy_list f a (i + 1) xs v)) (sym step)
          (record {
            zs = y ∷ rest.zs;
            array = rest.array ∙ ap (λ v. some (stored.put v)) (append-assoc_one ys y rest.zs);
            equal = (
              deep.separate.kept m₀ x (suc a) m₂ y _ rest.above
                  (deep.separate.kept m₀ x (suc a) m₁ y m₂ changed fresh),
              rest.equal,
            );
            above =
                SameAbove-trans (suc a) m m₁ _ grown.longer (λ j h k. grown.same j k)
                  (SameAbove-trans (suc a) m₁ m₂ _ (omega (arith, same_length)) changed rest.above);
            longer = omega (arith, grown.longer, same_length, rest.longer);
          })

    -- A copy into a new array, of a slice that is there.
    module _ (m₀ m : List Object) (s : Slice) (ext : Extends m₀ m) where
      copied :
          SlicesEqual E m₀ s 0 m₀ s
          → let m' = copy_each f s (length m) 0 s.len (m ++ (stored.put [] ∷ [])) in
            SlicesEqual E m₀ s (length m) m' (record { array = length m; start = 0; len = s.len })
      copied v =
          let xs = window s v.source in
          let made = Extends-append m (stored.put []) in
          let one : v.target ≡ v.source = grind (arith, v.source_there, v.target_there) in
          let valid =
            Pointwise-self (λ x y. E m₀ x 0 m₀ y) xs
              (subst (λ ts. Pointwise (λ x y. E m₀ x 0 m₀ y) xs (window s ts)) one
                v.same_elements) in
          let full =
            copy_list-Filled m₀ (length m) 0 [] xs (m ++ (stored.put [] ∷ []))
              (Extends-trans m₀ m _ ext made) ext.longer (get_elem?_last m (stored.put [])) refl
              valid in
          let m' = copy_list f (length m) 0 xs (m ++ (stored.put [] ∷ [])) in
          let same_len =
            sym (length-Pointwise (λ x z. E m₀ x (suc (length m)) m' z) xs full.zs full.equal)
            ∙ length-window s v.source v.source_fits in
          let same =
            copy_each-copy_list E f deep m₀ s v.source (length m) 0 s.len s.start
              (m ++ (stored.put [] ∷ [])) (Extends-trans m₀ m _ ext made) ext.longer v.source_there
              (omega arith) v.source_fits in
          subst
            (λ w.
              SlicesEqual E m₀ s (length m) w (record { array = length m; start = 0; len = s.len }))
            (sym same)
            (record {
              source = v.source;
              target = full.zs;
              source_there = v.source_there;
              target_there = array_at-put m' (length m) full.zs full.array;
              source_fits = v.source_fits;
              target_above = omega arith;
              same_len = refl;
              same_elements =
                  subst (λ zs. Pointwise (λ x z. E m₀ x (length m) m' z) xs zs)
                    (sym (take_all s.len full.zs same_len))
                    (Pointwise-mono
                      (λ x z.
                        deep.separate.lowered m₀ x (length m) (suc (length m)) m' z (omega arith))
                      xs full.zs full.equal);
            })

    new_array-Extends :
        (m : List Object) (s : Slice)
        → Extends m (copy_each f s (length m) 0 s.len (m ++ (stored.put [] ∷ [])))
    new_array-Extends m s =
        copy_each-Extends E f deep m s (length m) 0 s.len _ (Extends-append m (stored.put []))
          (omega arith)

    -- The copy of a slice is deep.
    pub copy_slice-IsDeepCopy : IsDeepCopy (SliceEqual E) (copy_slice f)
    unfolding copy_slice
    copy_slice-IsDeepCopy = record {
      separate = SliceEqual-IsSeparate E deep.separate;
      extends = extends;
      equal = equal;
    }
      where
        extends : (x : Option Slice) (m : List Object) → Extends m (copy_slice f x m).1
        extends none m = Extends-refl m
        extends (some s) m = new_array-Extends m s

        equal :
            (m₀ m : List Object) (x : Option Slice)
            → Extends m₀ m
            → IsValid (SliceEqual E) m₀ x
            → SliceEqual E m₀ x (length m) (copy_slice f x m).1 (copy_slice f x m).0
        equal m₀ m none ext v = tt
        equal m₀ m (some s) ext v = copied m₀ m s ext v

    -- The copy of a pointer is deep.
    pub copy_pointer-IsDeepCopy : IsDeepCopy (PointerEqual E) (copy_pointer f)
    unfolding copy_pointer
    copy_pointer-IsDeepCopy = record {
      separate = PointerEqual-IsSeparate E deep.separate;
      extends = extends;
      equal = equal;
    }
      where
        extends : (x : Option Pointer) (m : List Object) → Extends m (copy_pointer f x m).1
        extends none m = Extends-refl m
        extends (some p) m = new_array-Extends m (cell p)

        equal :
            (m₀ m : List Object) (x : Option Pointer)
            → Extends m₀ m
            → IsValid (PointerEqual E) m₀ x
            → PointerEqual E m₀ x (length m) (copy_pointer f x m).1 (copy_pointer f x m).0
        equal m₀ m none ext v = tt
        equal m₀ m (some p) ext v = copied m₀ m (cell p) ext v
