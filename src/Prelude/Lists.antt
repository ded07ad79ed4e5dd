-- ===== src/Prelude/Lists.antt =====
-- Lists measured and indexed by native numbers, under the library's names.
use Prim.Native.Nat.{ℕ, zero, suc}
use mathlib.Core.Path.{◌≡◌, refl, ap}
use mathlib.Core.Logic.{◌↔◌}
use mathlib.Core.List.{List, [], ◌∷◌, map}
use mathlib.Core.Option.{Option, none, some}

module _ {ℓ} {A : Type ℓ} where
  abbrev pub length : List A → ℕ
  length [] = 0
  length (x ∷ xs) = suc (length xs)

  abbrev pub get_elem? : List A → ℕ → Option A
  get_elem? [] i = none
  get_elem? (x ∷ xs) zero = some x
  get_elem? (x ∷ xs) (suc i) = get_elem? xs i

  -- `P` holds of every element.
  abbrev pub All {κ} : (A → Type κ) → List A → Type κ
  All P [] = Unit
  All P (x ∷ xs) = P x × All P xs

module _ {ℓ κ} {A : Type ℓ} {B : Type κ} where
  -- `R` holds of the elements at each position, and the lists are equally long.
  abbrev pub Pointwise : (A → B → Type 0) → List A → List B → Type 0
  Pointwise R [] [] = Unit
  Pointwise R (x ∷ xs) (y ∷ ys) = R x y × Pointwise R xs ys
  Pointwise R _ _ = ⊥

  pub length-map : (xs : List A) (f : A → B) → length (map f xs) ≡ length xs
  length-map [] f = refl
  length-map (x ∷ xs) f = ap suc (length-map xs f)

module _ {ℓ κ} {A : Type ℓ} {B : Type κ} {R S : A → B → Type 0} where
  pub Pointwise-mono :
      ((x : A) (y : B) → R x y → S x y)
      → (xs : List A) (ys : List B) → Pointwise R xs ys
      → Pointwise S xs ys
  Pointwise-mono f [] [] p = tt
  Pointwise-mono f [] (y ∷ ys) p = p
  Pointwise-mono f (x ∷ xs) [] p = p
  Pointwise-mono f (x ∷ xs) (y ∷ ys) (h, t) = (f x y h, Pointwise-mono f xs ys t)

  pub Pointwise-iff :
      ((x : A) (y : B) → R x y ↔ S x y)
      → (xs : List A) (ys : List B) → Pointwise R xs ys ↔ Pointwise S xs ys
  Pointwise-iff e [] [] = (λ h. h, λ h. h)
  Pointwise-iff e [] (y ∷ ys) = (λ h. h, λ h. h)
  Pointwise-iff e (x ∷ xs) [] = (λ h. h, λ h. h)
  Pointwise-iff e (x ∷ xs) (y ∷ ys) =
      let (to, back) = Pointwise-iff e xs ys in
      (λ (h, t). ((e x y).0 h, to t), λ (h, t). ((e x y).1 h, back t))

module _ {ℓ κ} {A : Type ℓ} {B : Type κ} (R : A → B → Type 0) where
  pub length-Pointwise : (xs : List A) (ys : List B) → Pointwise R xs ys → length xs ≡ length ys
  length-Pointwise [] [] p = refl
  length-Pointwise [] (y ∷ ys) p = absurd p
  length-Pointwise (x ∷ xs) [] p = absurd p
  length-Pointwise (x ∷ xs) (y ∷ ys) p = ap suc (length-Pointwise xs ys p.1)
