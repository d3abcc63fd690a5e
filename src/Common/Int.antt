-- ===== src/Common/Int.antt =====
-- Signed integers over the native numbers, as C's `int` before any wrap-around.
use Prim.Native.Nat.{ℕ, suc, ◌-◌}
use mathlib.Core.Path.{◌≡◌}
use mathlib.Core.Logic.{◌↔◌}
use mathlib.Core.Bool.{Bool, true, false}
use native.Mathlib.Omega.{arith}
use melon_os.Common.Tests.{leb, if◌then◌else◌}

-- `negsuc n` is -(n + 1).
pub data ℤ : Type 0 where
  pos : ℕ → ℤ
  negsuc : ℕ → ℤ

abbrev pub pos_part : ℤ → ℕ
pos_part (pos n) = n
pos_part (negsuc n) = 0

abbrev pub neg_part : ℤ → ℕ
neg_part (pos n) = 0
neg_part (negsuc n) = suc n

-- a - b, as an integer
abbrev pub sub_ℕ : ℕ → ℕ → ℤ
sub_ℕ a b = if leb b a then pos (a - b) else negsuc (b - a - 1)

abbrev pub neg : ℤ → ℤ
neg a = sub_ℕ (neg_part a) (pos_part a)

-- `a >= b` and `a < b` for a constant `b` that is not negative
abbrev pub geb_ℕ : ℤ → ℕ → Bool
geb_ℕ (pos n) b = leb b n
geb_ℕ (negsuc n) b = false

abbrev pub is_neg : ℤ → Bool
is_neg (pos n) = false
is_neg (negsuc n) = true

pub sub_ℕ-zero_iff : (a b : ℕ) → (sub_ℕ a b ≡ pos 0) ↔ (a ≡ b)
sub_ℕ-zero_iff a b = ground arith
