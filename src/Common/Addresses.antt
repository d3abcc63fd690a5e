-- ===== src/Common/Addresses.antt =====
-- Memory as a total map from addresses to cells.
use Prim.Native.Nat.{ℕ}
use mathlib.Core.Path.{◌≡◌}
use mathlib.Core.Logic.{◌≢◌}
use native.Mathlib.Omega.{arith}
use melon_os.Common.Tests.{◌==◌, if◌then◌else◌}

abbrev pub Store : Type 0
Store = ℕ → ℕ

unfoldable pub store : Store → ℕ → ℕ → Store
store m a v b = if b == a then v else m b

pub store_self : (m : Store) (a v : ℕ) → store m a v a ≡ v
unfolding store
store_self m a v = ground arith

pub store_ne : (m : Store) (a v b : ℕ) → b ≢ a → store m a v b ≡ m b
unfolding store
store_ne m a v b h = ground arith
