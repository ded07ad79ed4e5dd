-- ===== src/DeepCopy/Memory.antt =====
-- Go's memory, as deep copies use it: a list of objects, each of which is an array with the elements
-- that were written, or a map. A pointer is a place in an array, and `new` makes an array of one.
use opsgenie_operator.Prelude.{
  ℕ, zero, suc, ◌+◌, String, ◌≡◌, List, [], ◌∷◌, ◌++◌, Option, none, some, length, get_elem?,
}
use opsgenie_operator.Prelude.Dict.{Assignment, Dict, insert}
use opsgenie_operator.Startup.Slices.{take, write_at}

-- `len` elements of an array, from `start` on.
pub record Slice : Type 0 where
  pub array : ℕ
  pub start : ℕ
  pub len : ℕ

pub record Pointer : Type 0 where
  pub array : ℕ
  pub index : ℕ

-- The arrays of `A` are objects.
pub record Stored (Object A : Type 0) : Type 0 where
  pub put : List A → Object
  pub get : Object → Option (List A)
  pub get-put : (xs : List A) → get (put xs) ≡ some xs

-- A function that reads and writes memory.
abbrev pub M : Type 0 → Type 0 → Type 0
M Object A = List Object → A × List Object

module _ {Object A : Type 0} where
  abbrev pub pure : A → M Object A
  pure a m = (a, m)

module _ {Object A B : Type 0} where
  infixl 5 ◌>>=◌
  abbrev pub ◌>>=◌ : M Object A → (A → M Object B) → M Object B
  ◌>>=◌ f k m = let (a, m') = f m in k a m'

module _ {ℓ} {A : Type ℓ} where
  abbrev pub drop : ℕ → List A → List A
  drop zero xs = xs
  drop (suc n) [] = []
  drop (suc n) (x ∷ xs) = drop n xs

  -- The elements of a slice of this array.
  abbrev pub window : Slice → List A → List A
  window s xs = take s.len (drop s.start xs)

  abbrev pub set_at : ℕ → A → List A → List A
  set_at i v [] = []
  set_at zero v (x ∷ xs) = v ∷ xs
  set_at (suc i) v (x ∷ xs) = x ∷ set_at i v xs

  abbrev pub or_empty : Option (List A) → List A
  or_empty none = []
  or_empty (some xs) = xs

-- A pointer, as a slice of one element.
abbrev pub cell : Pointer → Slice
cell p = record { array = p.array; start = p.index; len = 1 }

module _ {Object A : Type 0} ⦃stored : Stored Object A⦄ where
  abbrev pub got : Option Object → Option (List A)
  got none = none
  got (some o) = stored.get o

  abbrev pub array_at : List Object → ℕ → Option (List A)
  array_at m a = got (get_elem? m a)

  abbrev pub elements : Slice → List Object → List A
  elements s m = window s (or_empty (array_at m s.array))

  -- `array[i] = y`
  unfoldable pub store_element : ℕ → ℕ → A → List Object → List Object
  store_element a i y m = set_at a (stored.put (write_at i y (or_empty (array_at m a)))) m

  -- `(*in)[i]`; there is none if the slice reaches beyond its array.
  abbrev pub element_at : Slice → ℕ → List Object → Option A
  element_at s i m = get_elem? (or_empty (array_at m s.array)) (s.start + i)

  -- `for i := range *in { (*in)[i].DeepCopyInto(&(*out)[i]) }`, from index `i` on, with `n` elements to
  -- go, where `s` is `*in` and `a` is the array of `*out`
  unfoldable pub copy_each : (A → M Object A) → Slice → ℕ → ℕ → ℕ → List Object → List Object
  unfolding store_element
  copy_each f s a i zero m = m
  copy_each f s a i (suc n) m = elim (element_at s i m) [
    | none ↦ m
    | some x ↦ let (y, m') = f x m in copy_each f s a (i + 1) n (store_element a i y m')
  ]

  -- `if in.F != nil { *out = make([]T, len(*in)); for i := range *in { … } }`
  unfoldable pub copy_slice : (A → M Object A) → Option Slice → M Object (Option Slice)
  unfolding copy_each
  copy_slice f none m = (none, m)
  copy_slice f (some s) m = (
    some (record { array = length m; start = 0; len = s.len }),
    copy_each f s (length m) 0 s.len (m ++ (stored.put [] ∷ [])),
  )

  -- `if in.F != nil { *out = new(T); (*in).DeepCopyInto(*out) }`, and `DeepCopy`
  unfoldable pub copy_pointer : (A → M Object A) → Option Pointer → M Object (Option Pointer)
  unfolding copy_each
  copy_pointer f none m = (none, m)
  copy_pointer f (some p) m = (
    some (record { array = length m; index = 0 }),
    copy_each f (cell p) (length m) 0 1 (m ++ (stored.put [] ∷ [])),
  )

module _ {Object : Type 0} (A : Type 0) ⦃stored : Stored Object A⦄ where
  -- `if in.F != nil { *out = make([]T, len(*in)); copy(*out, *in) }`
  unfoldable pub copy_flat : Option Slice → M Object (Option Slice)
  copy_flat none m = (none, m)
  copy_flat (some s) m = (
    some (record { array = length m; start = 0; len = s.len }),
    m ++ (stored.put (elements {A = A} s m) ∷ []),
  )

-- Maps from strings to strings. The order in which `range` gives the entries is left open: it is the
-- parameter `range`.
module _ {Object : Type 0} ⦃stored : Stored Object (Assignment String)⦄
    (range : Dict String → Dict String) where
  -- `for key, val := range *in { (*out)[key] = val }`
  unfoldable pub copy_entries : ℕ → Dict String → List Object → List Object
  copy_entries a [] m = m
  copy_entries a (e ∷ entries) m =
      copy_entries a entries
        (set_at a (stored.put (insert e.key e.value (or_empty (array_at m a)))) m)

  -- `if in.F != nil { *out = make(map[string]string, len(*in)); for … }`
  unfoldable pub copy_map : Option ℕ → M Object (Option ℕ)
  unfolding copy_entries
  copy_map none m = (none, m)
  copy_map (some a) m = (
    some (length m),
    copy_entries (length m) (range (or_empty (array_at m a))) (m ++ (stored.put [] ∷ [])),
  )
