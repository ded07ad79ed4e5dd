-- ===== src/Prelude/Dict.antt =====
-- Go maps with string keys, as lists of assignments, the last one first. The operator's code only
-- assigns and looks up, so that a key stands there again, or in which order, is never seen.
use Prim.Native.String.{String}
use mathlib.Core.Path.{◌≡◌, refl}
use mathlib.Core.Option.{Option, none, some}
use mathlib.Core.List.{List, [], ◌∷◌}
use opsgenie_operator.Prelude.Tests.{◌==◌, string_eq, if◌then◌else◌}

-- What is assigned to a key.
pub record Assignment {ℓ} (V : Type ℓ) : Type ℓ where
  pub key : String
  pub value : V

abbrev pub Dict {ℓ} : Type ℓ → Type ℓ
Dict V = List (Assignment V)

module _ {ℓ} {V : Type ℓ} where
  -- `v, exists := m[k]`
  unfoldable pub lookup : String → Dict V → Option V
  lookup k [] = none
  lookup k (last ∷ earlier) = if last.key == k then some last.value else lookup k earlier

  -- `m[k] = v`
  unfoldable pub insert : String → V → Dict V → Dict V
  insert k v m = record { key = k; value = v } ∷ m

  pub lookup-insert :
      (k j : String) (v : V) (m : Dict V)
      → lookup j (insert k v m) ≡ (if k == j then some v else lookup j m)
  unfolding lookup insert
  lookup-insert k j v m = refl
