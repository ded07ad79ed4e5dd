-- ===== src/Prelude/Int.antt =====
-- Go's `int`, and its conversion to `uint32`. An `int` is an unbounded integer here: the operator
-- never computes with one, it only converts it, looks it up in a map and prints it.
use Prim.Native.Nat.{ℕ, ◌+◌, ◌-◌, ◌%◌, ◌^◌, ◌<◌}
use mathlib.Core.Path.{◌≡◌}
use mathlib.Core.Logic.{◌↔◌}
use native.Mathlib.Omega.{arith}
use native.Mathlib.Decide.{ℕ_discrete}
use opsgenie_operator.Prelude.Tests.{Eq}

-- `negsuc n` is -(n + 1).
pub data ℤ : Type 0 where
  pos : ℕ → ℤ
  negsuc : ℕ → ℤ

ℤ-discrete : Discrete ℤ
ℤ-discrete = hlevel ℕ_discrete

instance unfoldable pub int_eq : Eq ℤ
unfolding ℤ-discrete
int_eq = record { dec = ℤ-discrete }

-- `uint32(i)`: the low 32 bits in two's complement.
unfoldable pub to_uint32 : ℤ → ℕ
to_uint32 (pos n) = n % 2 ^ 32
to_uint32 (negsuc n) = 2 ^ 32 - 1 - n % 2 ^ 32

pub to_uint32_lt : (i : ℤ) → to_uint32 i < 2 ^ 32
unfolding to_uint32
to_uint32_lt (pos n) = omega arith
to_uint32_lt (negsuc n) = omega arith

-- A value that fits is kept.
pub to_uint32-pos : (n : ℕ) → n < 2 ^ 32 → to_uint32 (pos n) ≡ n
unfolding to_uint32
to_uint32-pos n h = omega arith

-- `n` is what 32 bits leave of `i`: it fits, it is `i` exactly if `i` fits, and it is what a
-- negative `i` lacks to 2^32 exactly if `i` is at least -2^32.
abbrev pub WrapsTo : ℤ → ℕ → Type 0
WrapsTo (pos m) n = (n < 2 ^ 32) × ((n ≡ m) ↔ (m < 2 ^ 32))
WrapsTo (negsuc k) n = (n < 2 ^ 32) × ((n + k + 1 ≡ 2 ^ 32) ↔ (k < 2 ^ 32))

pub to_uint32-WrapsTo : (i : ℤ) → WrapsTo i (to_uint32 i)
unfolding to_uint32
to_uint32-WrapsTo (pos n) = (omega arith, (λ e. omega arith, λ h. omega arith))
to_uint32-WrapsTo (negsuc n) = (omega arith, (λ e. omega arith, λ h. omega arith))
