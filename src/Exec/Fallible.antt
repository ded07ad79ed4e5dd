-- ===== src/Exec/Fallible.antt =====
-- `Outcome` as a monad: functions that return a Go error and touch nothing outside.
use opsgenie_operator.Prelude.{◌≡◌, ◌≢◌, refl, ◌↔◌, List, [], ◌∷◌, Pointwise, Pointwise-iff, arith}
use opsgenie_operator.Exec.{Outcome, ok, err, panicked}

module _ {A B : Type 0} where
  infixl 5 ◌>>=◌
  abbrev pub ◌>>=◌ : Outcome A → (A → Outcome B) → Outcome B
  ok a >>= f = f a
  err e >>= f = err e
  panicked >>= f = panicked

module _ {A B : Type 0} where
  -- A loop that appends what the body gives for each element, and returns at the first error.
  unfoldable pub traverse : (A → Outcome B) → List A → Outcome (List B)
  traverse f [] = ok []
  traverse f (x ∷ xs) = let rest = traverse f xs in f x >>= λ y. rest >>= λ ys. ok (y ∷ ys)

  -- The loop succeeds exactly if its body does for each element, with the bodies' results.
  pub traverse-eq-ok :
      (f : A → Outcome B) (xs : List A) (ys : List B)
      → (traverse f xs ≡ ok ys) ↔ Pointwise (λ x y. f x ≡ ok y) xs ys
  unfolding traverse
  traverse-eq-ok f [] [] = ground arith
  traverse-eq-ok f [] (y ∷ ys) = ground arith
  traverse-eq-ok f (x ∷ xs) [] = (λ h. nonempty (f x) (traverse f xs) h, λ h. absurd h)
    where
      nonempty :
          (o : Outcome B) (rest : Outcome (List B))
          → (o >>= λ y. rest >>= λ ys. ok (y ∷ ys)) ≡ ok []
          → ⊥
      nonempty (ok y) (ok ys) h = cc
      nonempty (ok y) (err e) h = cc
      nonempty (ok y) panicked h = cc
      nonempty (err e) rest h = cc
      nonempty panicked rest h = cc
  traverse-eq-ok f (x ∷ xs) (y ∷ ys) =
      let (sound, complete) = traverse-eq-ok f xs ys in
      (
        λ h. let (here, there) = parts (f x) (traverse f xs) h in (here, sound there),
        λ (here, there). rw (here, complete there),
      )
    where
      parts :
          (o : Outcome B) (rest : Outcome (List B))
          → (o >>= λ z. rest >>= λ zs. ok (z ∷ zs)) ≡ ok (y ∷ ys)
          → (o ≡ ok y) × (rest ≡ ok ys)
      parts (ok z) (ok zs) h = ground arith
      parts (ok z) (err e) h = cc
      parts (ok z) panicked h = cc
      parts (err e) rest h = cc
      parts panicked rest h = cc

  -- The same, with another description of what the body does.
  pub traverse_iff :
      {R : A → B → Type 0} (f : A → Outcome B)
      → ((x : A) (y : B) → (f x ≡ ok y) ↔ R x y)
      → (xs : List A) (ys : List B) → (traverse f xs ≡ ok ys) ↔ Pointwise R xs ys
  traverse_iff f e xs ys =
      let (sound, complete) = traverse-eq-ok f xs ys in
      let (to, back) = Pointwise-iff e xs ys in (λ h. to (sound h), λ p. complete (back p))

  -- The loop panics only if its body does.
  pub traverse_defined :
      (f : A → Outcome B) → ((x : A) → f x ≢ panicked) → (xs : List A) → traverse f xs ≢ panicked
  unfolding traverse
  traverse_defined f defined [] = λ h. cc
  traverse_defined f defined (x ∷ xs) =
      let here = defined x in let there = traverse_defined f defined xs in ground arith

module _ {A B C : Type 0} where
  -- Inversion of a bind that succeeded.
  pub on_ok :
      (o : Outcome A) (f : A → Outcome B) {b : B}
      → (o >>= f) ≡ ok b
      → ((a : A) → o ≡ ok a → f a ≡ ok b → C)
      → C
  on_ok (ok a) f h k = k a refl h
  on_ok (err e) f h k = cc
  on_ok panicked f h k = cc
