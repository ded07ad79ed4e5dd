-- ===== src/DeepCopy/Loop.antt =====
-- The loop of a copy reads the elements of the original one at a time; as it writes to other arrays
-- only, these are the elements that were there before it.
use opsgenie_operator.Prelude.{
  ℕ, zero, suc, ◌+◌, ◌≤◌, ◌<◌, ◌≡◌, refl, ap, ◌∙◌, sym, List, [], ◌∷◌, Option, none, some, length,
  get_elem?, arith,
}
use opsgenie_operator.Startup.Slices.{take}
use opsgenie_operator.DeepCopy.Memory.{
  Slice, Stored, M, drop, or_empty, array_at, element_at, store_element, copy_each,
}
use opsgenie_operator.DeepCopy.Equal.{Extends, Equal, IsDeepCopy}
use opsgenie_operator.DeepCopy.Laws.{Extends-trans, Extends-set_at}
use opsgenie_operator.DeepCopy.Copies.{array_at-Extends}

module _ {A : Type 0} where
  -- From an index within a list on, there is an element and then those from the next index on.
  record Next (k n : ℕ) (xs : List A) : Type 0 where
    head : A
    there : get_elem? xs k ≡ some head
    rest : take (suc n) (drop k xs) ≡ head ∷ take n (drop (suc k) xs)

  next : (k n : ℕ) (xs : List A) → k < length xs → Next k n xs
  next k n [] h = absurd (omega arith)
  next zero n (x ∷ xs) h = record { head = x; there = refl; rest = refl }
  next (suc k) n (x ∷ xs) h =
      let later = next k n xs (omega arith) in
      record { head = later.head; there = later.there; rest = later.rest }

module _ {Object A : Type 0} ⦃stored : Stored Object A⦄ where
  -- The loop over a list of elements.
  unfoldable pub copy_list : (A → M Object A) → ℕ → ℕ → List A → List Object → List Object
  unfolding store_element
  copy_list f a i [] m = m
  copy_list f a i (x ∷ xs) m =
      let (y, m') = f x m in copy_list f a (i + 1) xs (store_element a i y m')

  module _ (E : Equal Object A) (f : A → M Object A) (deep : IsDeepCopy E f) where
    pub copy_each-Extends :
        (m₀ : List Object) (s : Slice) (a i n : ℕ) (m : List Object)
        → Extends m₀ m
        → length m₀ ≤ a
        → Extends m₀ (copy_each f s a i n m)
    unfolding copy_each
    copy_each-Extends m₀ s a i zero m ext low = ext
    copy_each-Extends m₀ s a i (suc n) m ext low =
        let rest = λ (x : A).
          copy_each-Extends m₀ s a (i + 1) n (store_element a i (f x m).0 (f x m).1)
            (Extends-set_at m₀ (f x m).1 a _ (Extends-trans m₀ m (f x m).1 ext (deep.extends x m))
              low)
            low in
        go (element_at s i m) rest
      where
        go :
            (o : Option A)
            → ((x : A)
                → Extends m₀ (copy_each f s a (i + 1) n (store_element a i (f x m).0 (f x m).1)))
            → Extends m₀ (elim o [
              | none ↦ m
              | some x ↦ copy_each f s a (i + 1) n (store_element a i (f x m).0 (f x m).1)
            ])
        go none rest = ext
        go (some x) rest = rest x

    pub copy_each-copy_list :
        (m₀ : List Object) (s : Slice) (source : List A) (a i n k : ℕ) (m : List Object)
        → Extends m₀ m
        → length m₀ ≤ a
        → array_at m₀ s.array ≡ some source
        → s.start + i ≡ k
        → k + n ≤ length source
        → copy_each f s a i n m ≡ copy_list f a i (take n (drop k source)) m
    unfolding copy_each copy_list
    copy_each-copy_list m₀ s source a i zero k m ext low at e fits = refl
    copy_each-copy_list m₀ s source a i (suc n) k m ext low at e fits =
        let now = next k n source (omega (arith, fits)) in
        let x = now.head in
        let found : element_at s i m ≡ some x =
          ap (λ o. get_elem? (or_empty o) (s.start + i)) (array_at-Extends m₀ m s.array ext at)
          ∙ ap (get_elem? source) e
          ∙ now.there in
        let later =
          copy_each-copy_list m₀ s source a (i + 1) n (suc k)
            (store_element a i (f x m).0 (f x m).1)
            (Extends-set_at m₀ (f x m).1 a _ (Extends-trans m₀ m (f x m).1 ext (deep.extends x m))
              low)
            low at (omega (arith, e)) (omega (arith, fits)) in
        ap
          (λ o. elim o as (λ _. List Object) [
            | none ↦ m
            | some x ↦ copy_each f s a (i + 1) n (store_element a i (f x m).0 (f x m).1)
          ])
          found
        ∙ later
        ∙ sym (ap (λ xs. copy_list f a i xs m) now.rest)
