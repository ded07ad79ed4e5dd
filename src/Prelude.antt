-- ===== src/Prelude.antt =====
-- The names that the other modules share: the libraries', passed on, and those of the children
-- (tests, lists measured by native numbers, Go maps, Go integers).
mod Tests
mod Lists
pub mod Dict
pub mod Pigeonhole
pub mod Int
unfoldable pub use Tests.*
pub use Lists.*
pub use Int.{ℤ, pos, negsuc, to_uint32_lt, to_uint32-pos, WrapsTo, to_uint32-WrapsTo}
unfoldable pub use Int.{to_uint32, int_eq}
pub use Prim.Native.Nat.{ℕ, zero, suc, ◌+◌, ◌-◌, ◌*◌, ◌%◌, ◌^◌, ◌≤◌, ◌<◌}
pub use Prim.Native.String.{String}
pub use mathlib.Core.Path.{◌≡◌, refl, sym, ap, ◌∙◌}
pub use mathlib.Core.Logic.{◌≢◌, ◌↔◌, ◌⊎◌, inl, inr}
pub use mathlib.Core.Bool.{Bool, true, false, not, ◌&&◌, ◌||◌}
pub use mathlib.Core.Option.{Option, none, some}
pub use mathlib.Core.List.{List, [], ◌∷◌, ◌++◌, map}
pub use native.Mathlib.Omega.{arith}
