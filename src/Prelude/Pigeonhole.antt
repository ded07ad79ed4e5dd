-- ===== src/Prelude/Pigeonhole.antt =====
-- Lists without repetition, compared by length and membership: what a comparison that checks
-- lengths and looks every element up can conclude.
use Prim.Native.Nat.{suc}
use mathlib.Core.Path.{◌≡◌, refl, sym, ap, ◌∙◌}
use mathlib.Core.Logic.{◌≢◌}
use mathlib.Core.Logic.Or
use mathlib.Core.HLevel.{⊥_prop}
use mathlib.Core.List.{
  not-mem-nil, mem-cons, List, [], ◌∷◌, map, Mem, Subset, Nodup, Perm, mem-map_of_mem, Nodup-nil,
  Nodup-cons,
}
use mathlib.Core.List as Lib
use mathlib.Core.List.Nodup
use mathlib.Core.List.Perm
use mathlib.Core.List.Subperm
use native.Mathlib.Bridge.{from_ℕ, from_le⁻¹}
use native.Mathlib.Omega.{arith}
use opsgenie_operator.Prelude.Lists.{length}

module _ {ℓ} {A : Type ℓ} where
  from_ℕ-length : (xs : List A) → from_ℕ (Lib.length xs) ≡ length xs
  from_ℕ-length [] = refl
  from_ℕ-length (x ∷ xs) = ap suc (from_ℕ-length xs)

  pub perm_of_Nodup :
      (xs ys : List A) → Nodup xs → Subset xs ys → length xs ≡ length ys → Perm xs ys
  perm_of_Nodup xs ys d sub e =
      Subperm.perm_of_length_le (Nodup.subperm d sub)
        (from_le⁻¹ _ _ (omega (arith, from_ℕ-length xs, from_ℕ-length ys)))

  pub length-perm : (xs ys : List A) → Perm xs ys → length xs ≡ length ys
  length-perm xs ys p = sym (from_ℕ-length xs) ∙ ap from_ℕ (Perm.length-eq p) ∙ from_ℕ-length ys

module _ {ℓ κ} {A : Type ℓ} {B : Type κ} where
  pub Nodup-of_map : (f : A → B) (xs : List A) → Nodup (map f xs) → Nodup xs
  Nodup-of_map f [] d = Nodup-nil
  Nodup-of_map f (x ∷ xs) d =
      let (fresh, rest) = Nodup-cons.0 d in
      Nodup-cons.1 (λ m. fresh (mem-map_of_mem f m), Nodup-of_map f xs rest)

pub Nodup-one {ℓ} : {A : Type ℓ} {x : A} → Nodup (x ∷ [])
Nodup-one = Nodup-cons.1 (not-mem-nil, Nodup-nil)

pub Nodup-pair {ℓ} : {A : Type ℓ} {x y : A} → x ≢ y → Nodup (x ∷ y ∷ [])
Nodup-pair differ = Nodup-cons.1 (λ p. Or.elim ⊥_prop (mem-cons.0 p) differ not-mem-nil, Nodup-one)
