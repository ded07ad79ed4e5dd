-- ===== src/Startup/Slices.antt =====
-- Go's slices: a slice is a view of an array, which other slices may share. `append` writes into
-- the array if there is room behind the slice, and otherwise copies into a new array. How much room
-- a new array has is left open by the language, and is the parameter `room`.
use opsgenie_operator.Prelude.{ℕ, zero, suc, ◌+◌, List, [], ◌∷◌, ◌++◌, length, ltb, if◌then◌else◌}

pub record Slice : Type 0 where
  pub array : ℕ
  pub len : ℕ
  pub cap : ℕ

-- The nil slice.
abbrev pub nil : Slice
nil = record { array = 0; len = 0; cap = 0 }

module _ {ℓ} {A : Type ℓ} where
  abbrev pub take : ℕ → List A → List A
  take zero xs = []
  take (suc n) [] = []
  take (suc n) (x ∷ xs) = x ∷ take n xs

  -- `a[i] = x`, where `a` has room for it
  abbrev pub write_at : ℕ → A → List A → List A
  write_at zero x [] = x ∷ []
  write_at zero x (y ∷ ys) = x ∷ ys
  write_at (suc i) x [] = []
  write_at (suc i) x (y ∷ ys) = y ∷ write_at i x ys

module _ {ℓ} {A : Type ℓ} where
  -- The arrays of the memory, each with the elements that were written.
  abbrev pub array_at : ℕ → List (List A) → List A
  array_at i [] = []
  array_at zero (a ∷ memory) = a
  array_at (suc i) (a ∷ memory) = array_at i memory

  abbrev pub change_array : ℕ → (List A → List A) → List (List A) → List (List A)
  change_array i f [] = []
  change_array zero f (a ∷ memory) = f a ∷ memory
  change_array (suc i) f (a ∷ memory) = a ∷ change_array i f memory

  unfoldable pub elements : List (List A) → Slice → List A
  elements memory s = take s.len (array_at s.array memory)

  unfoldable pub append : ℕ → A → Slice → List (List A) → Slice × List (List A)
  unfolding elements
  append room x s memory =
      if ltb s.len s.cap
      then (record s { len = s.len + 1 }, change_array s.array (write_at s.len x) memory)
      else (
        record { array = length memory; len = s.len + 1; cap = s.len + 1 + room },
        memory ++ ((elements memory s ++ (x ∷ [])) ∷ []),
      )
