-- ===== src/DeepCopy/Equal.antt =====
-- Deep equality of two values in two memories, and what it is to be a deep copy.
use opsgenie_operator.Prelude.{
  ℕ, ◌+◌, ◌≤◌, ◌<◌, String, ◌≡◌, List, Option, none, some, length, get_elem?, Pointwise,
}
use opsgenie_operator.Prelude.Dict.{Assignment, Dict, lookup}
use opsgenie_operator.DeepCopy.Memory.{Slice, Pointer, Stored, M, window, cell, array_at}

-- `m'` has all that is in `m`, unchanged.
pub record Extends {Object : Type 0} (m m' : List Object) : Type 0 where
  pub longer : length m ≤ length m'
  pub same : (i : ℕ) → i < length m → get_elem? m' i ≡ get_elem? m i

-- `m'` has what is in `m` from the address `n` on, unchanged.
abbrev pub SameAbove : {Object : Type 0} → ℕ → List Object → List Object → Type 0
SameAbove n m m' = (i : ℕ) → n ≤ i → i < length m → get_elem? m' i ≡ get_elem? m i

-- `E m x n m' y` is to say that `x` in `m` and `y` in `m'` are equal, and that all addresses that are
-- reached from `y` are at least `n`.
abbrev pub Equal : Type 0 → Type 0 → Type 1
Equal Object A = List Object → A → ℕ → List Object → A → Type 0

-- What is reached from `x` is there.
abbrev pub IsValid : {Object A : Type 0} → Equal Object A → List Object → A → Type 0
IsValid E m x = E m x 0 m x

-- `E` hangs, on the right, on what is at the addresses from `n` on.
pub record IsSeparate {Object A : Type 0} (E : Equal Object A) : Type 0 where
  pub kept :
      (m : List Object) (x : A) (n : ℕ) (m' : List Object) (y : A) (m'' : List Object)
      → SameAbove n m' m''
      → E m x n m' y
      → E m x n m'' y
  pub lowered :
      (m : List Object) (x : A) (k n : ℕ) (m' : List Object) (y : A)
      → k ≤ n
      → E m x n m' y
      → E m x k m' y

-- `f` makes deep copies: it changes nothing that was there, and what it returns is equal to `x` and
-- reaches only addresses that are new.
pub record IsDeepCopy {Object A : Type 0} (E : Equal Object A) (f : A → M Object A) : Type 0 where
  pub separate : IsSeparate E
  pub extends : (x : A) (m : List Object) → Extends m (f x m).1
  pub equal :
      (m₀ m : List Object) (x : A)
      → Extends m₀ m
      → IsValid E m₀ x
      → E m₀ x (length m) (f x m).1 (f x m).0

module _ {Object : Type 0} {A : Type 0} where
  -- Values without pointers.
  abbrev pub Plain : Equal Object A
  Plain m x n m' y = y ≡ x

module _ {Object : Type 0} {A : Type 0} ⦃stored : Stored Object A⦄ (E : Equal Object A) where
  -- Slices are equal if their elements are.
  pub record SlicesEqual (m : List Object) (s : Slice) (n : ℕ) (m' : List Object) (t : Slice)
      : Type 0 where
    pub source : List A
    pub target : List A
    pub source_there : array_at m s.array ≡ some source
    pub target_there : array_at m' t.array ≡ some target
    pub source_fits : s.start + s.len ≤ length source
    pub target_above : n ≤ t.array
    pub same_len : t.len ≡ s.len
    pub same_elements : Pointwise (λ x y. E m x n m' y) (window s source) (window t target)

  abbrev pub SliceEqual : Equal Object (Option Slice)
  SliceEqual m none n m' none = Unit
  SliceEqual m (some s) n m' (some t) = SlicesEqual m s n m' t
  SliceEqual m _ n m' _ = ⊥

  abbrev pub PointerEqual : Equal Object (Option Pointer)
  PointerEqual m none n m' none = Unit
  PointerEqual m (some p) n m' (some q) = SlicesEqual m (cell p) n m' (cell q)
  PointerEqual m _ n m' _ = ⊥

module _ {Object : Type 0} ⦃stored : Stored Object (Assignment String)⦄ where
  pub record MapsEqual (m : List Object) (a : ℕ) (n : ℕ) (m' : List Object) (b : ℕ) : Type 0 where
    pub source : Dict String
    pub target : Dict String
    pub source_there : array_at m a ≡ some source
    pub target_there : array_at m' b ≡ some target
    pub target_above : n ≤ b
    pub same_entries : (k : String) → lookup k target ≡ lookup k source

  -- Maps are equal if each key has the same value in both, or none.
  abbrev pub MapEqual : Equal Object (Option ℕ)
  MapEqual m none n m' none = Unit
  MapEqual m (some a) n m' (some b) = MapsEqual m a n m' b
  MapEqual m _ n m' _ = ⊥
