-- ===== src/DeepCopy/Copies.antt =====
-- Deep equality of slices and of pointers, and what is read in a memory that has grown.
use opsgenie_operator.Prelude.{
  ℕ, ◌≤◌, ◌<◌, ◌≡◌, refl, ap, ◌∙◌, List, Option, none, some, length, get_elem?, Pointwise-mono,
  arith,
}
use opsgenie_operator.DeepCopy.Memory.{Slice, Pointer, Stored, pure, window, cell, got, array_at}
use opsgenie_operator.DeepCopy.Equal.{
  Extends, SameAbove, Equal, IsSeparate, IsDeepCopy, Plain, SlicesEqual, SliceEqual, PointerEqual,
}
use opsgenie_operator.DeepCopy.Laws.{Extends-refl, get_elem?_lt}

module _ {Object A : Type 0} where
  -- A value without pointers is copied by assignment.
  pub pure-IsDeepCopy : IsDeepCopy {Object = Object} {A = A} Plain pure
  pure-IsDeepCopy = record {
    separate = record { kept = λ m x n m' y m'' s e. e; lowered = λ m x k n m' y l e. e };
    extends = λ x m. Extends-refl m;
    equal = λ m₀ m x e v. refl;
  }

module _ {Object A : Type 0} ⦃stored : Stored Object A⦄ where
  pub array_at-put :
      (m : List Object) (a : ℕ) (xs : List A)
      → get_elem? m a ≡ some (stored.put xs)
      → array_at m a ≡ some xs
  array_at-put m a xs h = ap got h ∙ stored.get-put xs

  got_lt : (m : List Object) (a : ℕ) {xs : List A} → array_at m a ≡ some xs → a < length m
  got_lt m a {xs} h = go (get_elem? m a) refl h
    where
      go : (o : Option Object) → get_elem? m a ≡ o → got o ≡ some xs → a < length m
      go none e h = cc
      go (some o) e h = get_elem?_lt m a e

  pub array_at-Extends :
      (m m' : List Object) (a : ℕ) {xs : List A}
      → Extends m m'
      → array_at m a ≡ some xs
      → array_at m' a ≡ some xs
  array_at-Extends m m' a e h = ap got (e.same a (got_lt m a h)) ∙ h

  pub array_at-SameAbove :
      (n : ℕ) (m m' : List Object) (a : ℕ) {xs : List A}
      → n ≤ a
      → SameAbove n m m'
      → array_at m a ≡ some xs
      → array_at m' a ≡ some xs
  array_at-SameAbove n m m' a l s h = ap got (s a l (got_lt m a h)) ∙ h

  module _ (E : Equal Object A) (separate : IsSeparate E) where
    slices_kept :
        (m : List Object) (s : Slice) (n : ℕ) (m' : List Object) (t : Slice) (m'' : List Object)
        → SameAbove n m' m''
        → SlicesEqual E m s n m' t
        → SlicesEqual E m s n m'' t
    slices_kept m s n m' t m'' above e = record {
      source = e.source;
      target = e.target;
      source_there = e.source_there;
      target_there = array_at-SameAbove n m' m'' t.array e.target_above above e.target_there;
      source_fits = e.source_fits;
      target_above = e.target_above;
      same_len = e.same_len;
      same_elements =
          Pointwise-mono (λ x y. separate.kept m x n m' y m'' above) (window s e.source)
            (window t e.target) e.same_elements;
    }

    slices_lowered :
        (m : List Object) (s : Slice) (k n : ℕ) (m' : List Object) (t : Slice)
        → k ≤ n
        → SlicesEqual E m s n m' t
        → SlicesEqual E m s k m' t
    slices_lowered m s k n m' t l e = record {
      source = e.source;
      target = e.target;
      source_there = e.source_there;
      target_there = e.target_there;
      source_fits = e.source_fits;
      target_above = omega (arith, e.target_above);
      same_len = e.same_len;
      same_elements =
          Pointwise-mono (λ x y. separate.lowered m x k n m' y l) (window s e.source)
            (window t e.target) e.same_elements;
    }

    pub SliceEqual-IsSeparate : IsSeparate (SliceEqual E)
    SliceEqual-IsSeparate = record { kept = kept; lowered = lowered }
      where
        kept :
            (m : List Object) (x : Option Slice) (n : ℕ) (m' : List Object) (y : Option Slice)
            (m'' : List Object)
            → SameAbove n m' m''
            → SliceEqual E m x n m' y
            → SliceEqual E m x n m'' y
        kept m none n m' none m'' s e = tt
        kept m none n m' (some t) m'' s e = e
        kept m (some x) n m' none m'' s e = e
        kept m (some x) n m' (some t) m'' s e = slices_kept m x n m' t m'' s e

        lowered :
            (m : List Object) (x : Option Slice) (k n : ℕ) (m' : List Object) (y : Option Slice)
            → k ≤ n
            → SliceEqual E m x n m' y
            → SliceEqual E m x k m' y
        lowered m none k n m' none l e = tt
        lowered m none k n m' (some t) l e = e
        lowered m (some x) k n m' none l e = e
        lowered m (some x) k n m' (some t) l e = slices_lowered m x k n m' t l e

    pub PointerEqual-IsSeparate : IsSeparate (PointerEqual E)
    PointerEqual-IsSeparate = record { kept = kept; lowered = lowered }
      where
        kept :
            (m : List Object) (x : Option Pointer) (n : ℕ) (m' : List Object) (y : Option Pointer)
            (m'' : List Object)
            → SameAbove n m' m''
            → PointerEqual E m x n m' y
            → PointerEqual E m x n m'' y
        kept m none n m' none m'' s e = tt
        kept m none n m' (some t) m'' s e = e
        kept m (some x) n m' none m'' s e = e
        kept m (some x) n m' (some t) m'' s e = slices_kept m (cell x) n m' (cell t) m'' s e

        lowered :
            (m : List Object) (x : Option Pointer) (k n : ℕ) (m' : List Object) (y : Option Pointer)
            → k ≤ n
            → PointerEqual E m x n m' y
            → PointerEqual E m x k m' y
        lowered m none k n m' none l e = tt
        lowered m none k n m' (some t) l e = e
        lowered m (some x) k n m' none l e = e
        lowered m (some x) k n m' (some t) l e = slices_lowered m (cell x) k n m' (cell t) l e
