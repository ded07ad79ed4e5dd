-- ===== src/DeepCopy/Laws.antt =====
-- Memory that grows, and memory in which one object changes.
use opsgenie_operator.Prelude.{
  ℕ, zero, suc, ◌+◌, ◌≤◌, ◌<◌, ◌≡◌, ◌≢◌, refl, ap, ◌∙◌, List, [], ◌∷◌, ◌++◌, some, length,
  get_elem?, Pointwise, All, arith,
}
use opsgenie_operator.Startup.Slices.{take, write_at}
use opsgenie_operator.DeepCopy.Memory.{drop, set_at, Slice, window}
use opsgenie_operator.DeepCopy.Equal.{Extends, SameAbove}

module _ {Object : Type 0} where
  pub Extends-refl : (m : List Object) → Extends m m
  Extends-refl m = record { longer = omega arith; same = λ i h. refl }

  pub Extends-trans : (a b c : List Object) → Extends a b → Extends b c → Extends a c
  Extends-trans a b c s t = record {
    longer = omega (arith, s.longer, t.longer);
    same = λ i h. t.same i (omega (arith, s.longer)) ∙ s.same i h;
  }

  pub SameAbove-trans :
      (n : ℕ) (a b c : List Object)
      → length a ≤ length b
      → SameAbove n a b
      → SameAbove n b c
      → SameAbove n a c
  SameAbove-trans n a b c l s t i h k = t i h (omega arith) ∙ s i h k

module _ {ℓ} {A : Type ℓ} where
  pub get_elem?_lt : (xs : List A) (i : ℕ) {x : A} → get_elem? xs i ≡ some x → i < length xs
  get_elem?_lt [] i e = cc
  get_elem?_lt (x ∷ xs) zero e = omega arith
  get_elem?_lt (x ∷ xs) (suc i) e = omega (arith, get_elem?_lt xs i e)

  pub length-append_one : (xs : List A) (x : A) → length (xs ++ (x ∷ [])) ≡ suc (length xs)
  length-append_one [] x = refl
  length-append_one (y ∷ xs) x = ap suc (length-append_one xs x)

  pub get_elem?-append :
      (xs : List A) (x : A) (i : ℕ) → i < length xs → get_elem? (xs ++ (x ∷ [])) i ≡ get_elem? xs i
  get_elem?-append [] x i h = absurd (omega arith)
  get_elem?-append (y ∷ xs) x zero h = refl
  get_elem?-append (y ∷ xs) x (suc i) h = get_elem?-append xs x i (omega arith)

  pub get_elem?_last : (xs : List A) (x : A) → get_elem? (xs ++ (x ∷ [])) (length xs) ≡ some x
  get_elem?_last [] x = refl
  get_elem?_last (y ∷ xs) x = get_elem?_last xs x

  pub length-set_at : (i : ℕ) (x : A) (xs : List A) → length (set_at i x xs) ≡ length xs
  length-set_at i x [] = refl
  length-set_at zero x (y ∷ xs) = refl
  length-set_at (suc i) x (y ∷ xs) = ap suc (length-set_at i x xs)

  pub get_elem?-set_at :
      (i : ℕ) (x : A) (xs : List A) → i < length xs → get_elem? (set_at i x xs) i ≡ some x
  get_elem?-set_at i x [] h = absurd (omega arith)
  get_elem?-set_at zero x (y ∷ xs) h = refl
  get_elem?-set_at (suc i) x (y ∷ xs) h = get_elem?-set_at i x xs (omega arith)

  pub get_elem?-set_at_other :
      (i j : ℕ) (x : A) (xs : List A) → i ≢ j → get_elem? (set_at i x xs) j ≡ get_elem? xs j
  get_elem?-set_at_other i j x [] h = refl
  get_elem?-set_at_other zero zero x (y ∷ xs) h = absurd (h refl)
  get_elem?-set_at_other zero (suc j) x (y ∷ xs) h = refl
  get_elem?-set_at_other (suc i) zero x (y ∷ xs) h = refl
  get_elem?-set_at_other (suc i) (suc j) x (y ∷ xs) h =
      get_elem?-set_at_other i j x xs (λ e. h (ap suc e))

  pub write_at-end :
      (i : ℕ) (x : A) (xs : List A) → length xs ≡ i → write_at i x xs ≡ xs ++ (x ∷ [])
  write_at-end zero x [] h = refl
  write_at-end zero x (y ∷ xs) h = absurd (omega arith)
  write_at-end (suc i) x [] h = absurd (omega arith)
  write_at-end (suc i) x (y ∷ xs) h = ap (λ ys. y ∷ ys) (write_at-end i x xs (omega arith))

  pub append-assoc_one :
      (xs : List A) (x : A) (ys : List A) → (xs ++ (x ∷ [])) ++ ys ≡ xs ++ (x ∷ ys)
  append-assoc_one [] x ys = refl
  append-assoc_one (y ∷ xs) x ys = ap (λ zs. y ∷ zs) (append-assoc_one xs x ys)

  pub take_all : (n : ℕ) (xs : List A) → length xs ≡ n → take n xs ≡ xs
  take_all zero [] h = refl
  take_all zero (x ∷ xs) h = absurd (omega arith)
  take_all (suc n) [] h = absurd (omega arith)
  take_all (suc n) (x ∷ xs) h = ap (λ ys. x ∷ ys) (take_all n xs (omega arith))

  length-take : (n : ℕ) (xs : List A) → n ≤ length xs → length (take n xs) ≡ n
  length-take zero xs h = refl
  length-take (suc n) [] h = absurd (omega arith)
  length-take (suc n) (x ∷ xs) h = ap suc (length-take n xs (omega arith))

  length-drop : (n : ℕ) (xs : List A) → n ≤ length xs → length (drop n xs) + n ≡ length xs
  length-drop zero xs h = omega arith
  length-drop (suc n) [] h = absurd (omega arith)
  length-drop (suc n) (x ∷ xs) h = omega (arith, length-drop n xs (omega arith))

  pub length-window :
      (s : Slice) (xs : List A) → s.start + s.len ≤ length xs → length (window s xs) ≡ s.len
  length-window s xs h =
      let rest = length-drop s.start xs (omega arith) in
      length-take s.len (drop s.start xs) (omega arith)

module _ {Object : Type 0} where
  -- A new object at the end.
  pub Extends-append : (m : List Object) (o : Object) → Extends m (m ++ (o ∷ []))
  Extends-append m o = record {
    longer = omega (arith, length-append_one m o);
    same = λ i h. get_elem?-append m o i h;
  }

  -- A change of an object that is not of the old memory.
  pub Extends-set_at :
      (m m' : List Object) (a : ℕ) (o : Object)
      → Extends m m'
      → length m ≤ a
      → Extends m (set_at a o m')
  Extends-set_at m m' a o e h = record {
    longer = omega (arith, e.longer, length-set_at a o m');
    same = λ i k. get_elem?-set_at_other a i o m' (omega arith) ∙ e.same i k;
  }

  pub SameAbove-set_at : (a : ℕ) (o : Object) (m : List Object) → SameAbove (suc a) m (set_at a o m)
  SameAbove-set_at a o m i h k = get_elem?-set_at_other a i o m (omega arith)

module _ {ℓ} {A : Type ℓ} where
  pub Pointwise-self : (R : A → A → Type 0) (xs : List A) → Pointwise R xs xs → All (λ x. R x x) xs
  Pointwise-self R [] h = tt
  Pointwise-self R (x ∷ xs) (here, there) = (here, Pointwise-self R xs there)
