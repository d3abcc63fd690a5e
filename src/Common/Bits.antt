-- ===== src/Common/Bits.antt =====
-- Masks and disjoint `|` as arithmetic, for every width.
use Prim.Native.Nat.{
  ℕ, zero, suc, ◌+◌, ◌*◌, ◌/◌, ◌%◌, ◌^◌, ◌≤◌, ◌<◌, min, max, bit_and, bit_or, digits,
  bit_and-bitwise, bit_or-bitwise,
}
use mathlib.Core.Path.{◌≡◌, refl, sym, ap, ◌∙◌}
use native.Mathlib.Omega.{arith}
use native.Mathlib.Nat.{
  pow-suc, div-add-mod, mod-lt, mod-eq_of_lt, mul-add-mod_self_right, div-div-eq-div-mul, mul_comm,
}

-- The native operations count digits down from their first number; any larger count agrees.
module _ (z : ℕ → ℕ) (f : ℕ → ℕ → ℕ) where
  digits-enough : (k j a b : ℕ) → a ≤ k → a ≤ j → digits z f k a b ≡ digits z f j a b
  digits-enough zero zero a b p q = refl
  digits-enough k zero (suc a) b p q = absurd (omega arith)
  digits-enough zero j (suc a) b p q = absurd (omega arith)
  digits-enough zero (suc j) zero b p q = refl
  digits-enough (suc k) zero zero b p q = refl
  digits-enough (suc k) (suc j) zero b p q = refl
  digits-enough (suc k) (suc j) (suc a) b p q =
      omega (arith, digits-enough k j (suc a / 2) (b / 2) (omega arith) (omega arith))

-- The lowest digit and the rest.
pub and_low : (a b : ℕ) → bit_and a b ≡ bit_and (a / 2) (b / 2) * 2 + min (a % 2) (b % 2)
and_low zero b = omega (arith, bit_and-bitwise 0 b, bit_and-bitwise 0 (b / 2))
and_low (suc a) b = omega (
  arith,
  bit_and-bitwise (suc a) b,
  bit_and-bitwise (suc a / 2) (b / 2),
  digits-enough (λ _. 0) min a (suc a / 2) (suc a / 2) (b / 2) (omega arith) (omega arith),
)

pub or_low : (a b : ℕ) → bit_or a b ≡ bit_or (a / 2) (b / 2) * 2 + max (a % 2) (b % 2)
or_low zero b = omega (arith, bit_or-bitwise 0 b, bit_or-bitwise 0 (b / 2))
or_low (suc a) b = omega (
  arith,
  bit_or-bitwise (suc a) b,
  bit_or-bitwise (suc a / 2) (b / 2),
  digits-enough (λ d. d) max a (suc a / 2) (suc a / 2) (b / 2) (omega arith) (omega arith),
)

pub bit_and-zero : (n a : ℕ) → a ≤ n → bit_and a 0 ≡ 0
bit_and-zero n zero h = bit_and-bitwise 0 0
bit_and-zero zero (suc a) h = absurd (omega arith)
bit_and-zero (suc n) (suc a) h =
    omega (arith, and_low (suc a) 0, bit_and-zero n (suc a / 2) (omega arith))

pub bit_or-zero : (n a : ℕ) → a ≤ n → bit_or a 0 ≡ a
bit_or-zero n zero h = bit_or-bitwise 0 0
bit_or-zero zero (suc a) h = absurd (omega arith)
bit_or-zero (suc n) (suc a) h =
    omega (arith, or_low (suc a) 0, bit_or-zero n (suc a / 2) (omega arith))

-- `ones k` is `(1 << k) - 1`.
abbrev pub ones : ℕ → ℕ
ones zero = 0
ones (suc k) = ones k * 2 + 1

mod-twice : (a q : ℕ) → 0 < q → a % (q * 2) ≡ (a / 2 % q) * 2 + a % 2
mod-twice a q h =
    let r = a / 2 % q in
    let t = a / 2 / q in
    let split : a ≡ t * (q * 2) + (r * 2 + a % 2) = omega (arith, div-add-mod (a / 2) q) in
    ap (λ x. x % (q * 2)) split
    ∙ mul-add-mod_self_right t (q * 2) (r * 2 + a % 2)
    ∙ mod-eq_of_lt (omega (arith, mod-lt (a / 2) h))

two-pow-pos : (k : ℕ) → 0 < 2 ^ k
two-pow-pos zero = omega arith
two-pow-pos (suc k) = omega (arith, two-pow-pos k, pow-suc 2 k)

-- A mask of `k` ones keeps the low digits.
pub bit_and-ones : (k a : ℕ) → bit_and a (ones k) ≡ a % 2 ^ k
bit_and-ones zero a = omega (arith, bit_and-zero a a (omega arith))
bit_and-ones (suc k) a =
    let half : (ones k * 2 + 1) / 2 ≡ ones k = omega arith in
    let low : bit_and a (ones k * 2 + 1) ≡ bit_and (a / 2) (ones k) * 2 + a % 2 =
      and_low a (ones k * 2 + 1) ∙ rw half (omega arith) in
    low ∙ rw (bit_and-ones k (a / 2), pow-suc) (sym (mod-twice a (2 ^ k) (two-pow-pos k)))

-- A mask that ends in `k` zeros acts on the digits above them.
pub bit_and-shifted : (k a m : ℕ) → bit_and a (m * 2 ^ k) ≡ bit_and (a / 2 ^ k) m * 2 ^ k
bit_and-shifted zero a m =
    let e : m * 1 ≡ m = omega arith in let d : a / 1 ≡ a = omega arith in rw (e, d) (omega arith)
bit_and-shifted (suc k) a m =
    let half : m * (2 ^ k * 2) / 2 ≡ m * 2 ^ k = omega arith in
    let quot : a / (2 ^ k * 2) ≡ a / 2 / 2 ^ k =
      ap (λ x. a / x) (mul_comm (2 ^ k) 2) ∙ sym (div-div-eq-div-mul a 2 (2 ^ k)) in
    rw pow-suc
      (and_low a (m * (2 ^ k * 2)) ∙ rw (half, bit_and-shifted k (a / 2) m, quot) (omega arith))

-- `|` with digits below an aligned number adds them.
pub bit_or-disjoint : (k a b : ℕ) → b < 2 ^ k → bit_or (a * 2 ^ k) b ≡ a * 2 ^ k + b
bit_or-disjoint zero a b h =
    let none_left : b ≡ 0 = omega arith in
    let d : a * 1 ≡ a = omega arith in
    rw (none_left, d) (omega (arith, bit_or-zero a a (omega arith)))
bit_or-disjoint (suc k) a b h =
    let b2 : b / 2 < 2 ^ k = omega (arith, pow-suc 2 k) in
    let half : a * (2 ^ k * 2) / 2 ≡ a * 2 ^ k = omega arith in
    rw pow-suc
      (or_low (a * (2 ^ k * 2)) b ∙ rw (half, bit_or-disjoint k a (b / 2) b2) (omega arith))

-- `|` with digits below an aligned number acts on the low digits alone.
pub bit_or-low :
    (k q a b : ℕ) → a < 2 ^ k → b < 2 ^ k → bit_or (q * 2 ^ k + a) b ≡ q * 2 ^ k + bit_or a b
bit_or-low zero q a b ha hb =
    let a0 : a ≡ 0 = omega arith in
    let b0 : b ≡ 0 = omega arith in
    let d : q * 1 + 0 ≡ q = omega arith in
    rw (a0, b0, d) (omega (arith, bit_or-zero q q (omega arith), bit_or-zero 0 0 (omega arith)))
bit_or-low (suc k) q a b ha hb =
    let a2 : a / 2 < 2 ^ k = omega (arith, pow-suc 2 k) in
    let b2 : b / 2 < 2 ^ k = omega (arith, pow-suc 2 k) in
    let half : (q * (2 ^ k * 2) + a) / 2 ≡ q * 2 ^ k + a / 2 = omega arith in
    rw pow-suc (
      or_low (q * (2 ^ k * 2) + a) b
      ∙ rw (half, bit_or-low k q (a / 2) (b / 2) a2 b2) (omega (arith, or_low a b)))

-- The parity of `|`.
pub bit_or-odd : (a b : ℕ) → a % 2 ≡ 1 → bit_or a b % 2 ≡ 1
bit_or-odd a b h = omega (arith, or_low a b)

pub bit_or-bound : (k a b : ℕ) → a < 2 ^ k → b < 2 ^ k → bit_or a b < 2 ^ k
bit_or-bound zero a b ha hb =
    let a0 : a ≡ 0 = omega arith in
    let b0 : b ≡ 0 = omega arith in rw (a0, b0) (omega (arith, bit_or-zero 0 0 (omega arith)))
bit_or-bound (suc k) a b ha hb =
    let a2 : a / 2 < 2 ^ k = omega (arith, pow-suc 2 k) in
    let b2 : b / 2 < 2 ^ k = omega (arith, pow-suc 2 k) in
    omega (arith, or_low a b, pow-suc 2 k, bit_or-bound k (a / 2) (b / 2) a2 b2)
