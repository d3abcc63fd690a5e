-- ===== src/Common.antt =====
-- The names that every component shares: the libraries', passed on, and those of the children
-- for Boolean tests, C arrays as lists, maps over addresses, and bits.
mod Tests
mod Lists
mod Addresses
mod Search
pub mod Bits
pub mod Int
pub use Tests.*
pub use Lists.*
unfoldable pub use Search.*
unfoldable pub use Addresses.*
pub use Prim.Native.Nat.{ℕ, zero, suc, ◌+◌, ◌-◌, ◌*◌, ◌/◌, ◌%◌, ◌^◌, ◌≤◌, ◌<◌, min, max}
pub use Prim.Native.Nat.{bit_and, bit_or, bit_xor}
pub use mathlib.Core.Path.{◌≡◌, refl, sym, ap, ap₂, ◌∙◌, subst, fun_ext}
pub use mathlib.Core.Logic.{◌≢◌, ◌↔◌, ◌⊎◌, inl, inr}
pub use mathlib.Core.Bool.{Bool, true, false, not, ◌&&◌, ◌||◌}
pub use mathlib.Core.Option.{Option, none, some}
pub use mathlib.Core.List.{List, [], ◌∷◌, ◌++◌, map, append-nil, append_assoc}
pub use native.Mathlib.Omega.{arith}
