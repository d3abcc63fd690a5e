-- ===== src/Disk/Block/Bytes.antt =====
-- The bits of a byte of the free map.
use melon_os.Common.{
  ℕ, zero, suc, ◌-◌, ◌*◌, ◌/◌, ◌%◌, ◌^◌, ◌<◌, ◌≤◌, ◌≡◌, refl, sym, ap, ap₂, ◌∙◌, Bool, true, false,
  not, ◌==◌, if◌then◌else◌, bit_and, bit_or, min, max, arith, Bool-cases, inl, inr, List, get_or,
  length, get_or-set, if-on,
}
use melon_os.Common.Bits.{bit_and-ones, bit_and-shifted, and_low, or_low}
use native.Mathlib.Nat.{div-div-eq-div-mul, mul_comm, pow-suc}
use melon_os.Disk.Block.{mask, set_bit, bit_at, with_bit, leading_ones}

-- the `k`-th bit, counted from the lowest
abbrev pub nth_bit : ℕ → ℕ → ℕ
nth_bit k a = a / 2 ^ k % 2

nth_bit-suc : (k a : ℕ) → nth_bit (suc k) a ≡ nth_bit k (a / 2)
nth_bit-suc k a =
    ap (λ x. x % 2)
      (ap (λ x. a / x) (pow-suc 2 k ∙ mul_comm (2 ^ k) 2) ∙ sym (div-div-eq-div-mul a 2 (2 ^ k)))

nth_bit-or : (k a b : ℕ) → nth_bit k (bit_or a b) ≡ max (nth_bit k a) (nth_bit k b)
nth_bit-or zero a b = omega (arith, or_low a b)
nth_bit-or (suc k) a b =
    let half : bit_or a b / 2 ≡ bit_or (a / 2) (b / 2) = omega (arith, or_low a b) in
    nth_bit-suc k (bit_or a b)
    ∙ ap (nth_bit k) half
    ∙ nth_bit-or k (a / 2) (b / 2)
    ∙ ap₂ max (sym (nth_bit-suc k a)) (sym (nth_bit-suc k b))

nth_bit-and : (k a b : ℕ) → nth_bit k (bit_and a b) ≡ min (nth_bit k a) (nth_bit k b)
nth_bit-and zero a b = omega (arith, and_low a b)
nth_bit-and (suc k) a b =
    let half : bit_and a b / 2 ≡ bit_and (a / 2) (b / 2) = omega (arith, and_low a b) in
    nth_bit-suc k (bit_and a b)
    ∙ ap (nth_bit k) half
    ∙ nth_bit-and k (a / 2) (b / 2)
    ∙ ap₂ min (sym (nth_bit-suc k a)) (sym (nth_bit-suc k b))

bit_and-power : (k a : ℕ) → bit_and a (1 * 2 ^ k) ≡ nth_bit k a * 2 ^ k
bit_and-power k a = bit_and-shifted k a 1 ∙ ap (λ x. x * 2 ^ k) (bit_and-ones 1 (a / 2 ^ k))

by_eight {ℓ} :
    (P : ℕ → Type ℓ) → P 0 → P 1 → P 2 → P 3 → P 4 → P 5 → P 6 → P 7 → (i : ℕ) → i < 8 → P i
by_eight P a b c d e f g h zero lt = a
by_eight P a b c d e f g h (suc zero) lt = b
by_eight P a b c d e f g h (suc (suc zero)) lt = c
by_eight P a b c d e f g h (suc (suc (suc zero))) lt = d
by_eight P a b c d e f g h (suc (suc (suc (suc zero)))) lt = e
by_eight P a b c d e f g h (suc (suc (suc (suc (suc zero))))) lt = f
by_eight P a b c d e f g h (suc (suc (suc (suc (suc (suc zero)))))) lt = g
by_eight P a b c d e f g h (suc (suc (suc (suc (suc (suc (suc zero))))))) lt = h
by_eight P a b c d e f g h (suc (suc (suc (suc (suc (suc (suc (suc i)))))))) lt =
    absurd (omega arith)

-- whether the `i`-th bit of a byte is set, counted from the highest
abbrev pub on : ℕ → ℕ → Bool
on byte i = not (bit_and byte (mask i) == 0)

on_iff : (byte i : ℕ) → i < 8 → on byte i ≡ (nth_bit (7 - i) byte == 1)
on_iff byte i h =
    by_eight (λ i. on byte i ≡ (nth_bit (7 - i) byte == 1)) (ground (arith, bit_and-power 7 byte))
      (ground (arith, bit_and-power 6 byte)) (ground (arith, bit_and-power 5 byte))
      (ground (arith, bit_and-power 4 byte)) (ground (arith, bit_and-power 3 byte))
      (ground (arith, bit_and-power 2 byte)) (ground (arith, bit_and-power 1 byte))
      (ground (arith, bit_and-power 0 byte)) i h

-- the bits of a mask, and of its complement
mask_bit : (i : ℕ) → i < 8 → (j : ℕ) → j < 8 → nth_bit (7 - j) (mask i) ≡ (if j == i then 1 else 0)
mask_bit =
    by_eight (λ i. (j : ℕ) → j < 8 → nth_bit (7 - j) (mask i) ≡ (if j == i then 1 else 0))
      (by_eight _ refl refl refl refl refl refl refl refl)
      (by_eight _ refl refl refl refl refl refl refl refl)
      (by_eight _ refl refl refl refl refl refl refl refl)
      (by_eight _ refl refl refl refl refl refl refl refl)
      (by_eight _ refl refl refl refl refl refl refl refl)
      (by_eight _ refl refl refl refl refl refl refl refl)
      (by_eight _ refl refl refl refl refl refl refl refl)
      (by_eight _ refl refl refl refl refl refl refl refl)

unmask_bit :
    (i : ℕ) → i < 8 → (j : ℕ) → j < 8 → nth_bit (7 - j) (255 - mask i) ≡ (if j == i then 0 else 1)
unmask_bit =
    by_eight (λ i. (j : ℕ) → j < 8 → nth_bit (7 - j) (255 - mask i) ≡ (if j == i then 0 else 1))
      (by_eight _ refl refl refl refl refl refl refl refl)
      (by_eight _ refl refl refl refl refl refl refl refl)
      (by_eight _ refl refl refl refl refl refl refl refl)
      (by_eight _ refl refl refl refl refl refl refl refl)
      (by_eight _ refl refl refl refl refl refl refl refl)
      (by_eight _ refl refl refl refl refl refl refl refl)
      (by_eight _ refl refl refl refl refl refl refl refl)
      (by_eight _ refl refl refl refl refl refl refl refl)

or_test :
    (x : ℕ) (c : Bool) → x < 2 → (max x (if c then 1 else 0) == 1) ≡ (if c then true else x == 1)
or_test x c h = ground arith

and_test :
    (x : ℕ) (c : Bool) → x < 2 → (min x (if c then 0 else 1) == 1) ≡ (if c then false else x == 1)
and_test x c h = ground arith

-- Setting or clearing a bit changes that bit and no other.
pub on-set_bit :
    (used : Bool) (byte i j : ℕ)
    → i < 8
    → j < 8
    → on (set_bit used byte (mask i)) j ≡ (if j == i then used else on byte j)
on-set_bit true byte i j hi hj =
    on_iff (bit_or byte (mask i)) j hj
    ∙ ap (λ x. x == 1)
        (nth_bit-or (7 - j) byte (mask i) ∙ ap (max (nth_bit (7 - j) byte)) (mask_bit i hi j hj))
    ∙ or_test (nth_bit (7 - j) byte) (j == i) (omega arith)
    ∙ ap (λ c. if j == i then true else c) (sym (on_iff byte j hj))
on-set_bit false byte i j hi hj =
    on_iff (bit_and byte (255 - mask i)) j hj
    ∙ ap (λ x. x == 1)
        (nth_bit-and (7 - j) byte (255 - mask i)
          ∙ ap (min (nth_bit (7 - j) byte)) (unmask_bit i hi j hj))
    ∙ and_test (nth_bit (7 - j) byte) (j == i) (omega arith)
    ∙ ap (λ c. if j == i then false else c) (sym (on_iff byte j hj))

-- In a map of so many bytes, setting or clearing a bit changes that bit and no other.
pub bit_at-with_bit :
    (freemap : List ℕ) (n m : ℕ) (used : Bool)
    → n / 8 < length freemap
    → bit_at (with_bit freemap n used) m ≡ (if m == n then used else bit_at freemap m)
bit_at-with_bit freemap n m used h =
    let old = get_or freemap (n / 8) 0 in
    let new = set_bit used old (mask (n % 8)) in
    ap (λ byte. on byte (m % 8)) (get_or-set freemap (n / 8) (m / 8) new 0 h)
    ∙ elim (Bool-cases (m / 8 == n / 8)) [
      | inr other ↦ let apart : (m == n) ≡ false = ground arith in rw (apart, other) refl
      | inl same ↦
          let byte_eq : m / 8 ≡ n / 8 = ground arith in
          let bits : (m % 8 == n % 8) ≡ (m == n) = ground arith in
          ap (λ byte. on byte (m % 8)) (if-on new (get_or freemap (m / 8) 0) same)
          ∙ on-set_bit used old (n % 8) (m % 8) (omega arith) (omega arith)
          ∙ ap₂ (λ c b. if c then used else on (get_or freemap b 0) (m % 8)) bits (sym byte_eq)
    ]

shift_bit :
    (byte i : ℕ) → i < 8 → i < 7 → nth_bit (7 - i) (byte * 2 % 256) ≡ nth_bit (7 - suc i) byte
shift_bit byte =
    by_eight (λ i. i < 7 → nth_bit (7 - i) (byte * 2 % 256) ≡ nth_bit (7 - suc i) byte)
      (λ h. omega arith) (λ h. omega arith) (λ h. omega arith) (λ h. omega arith) (λ h. omega arith)
      (λ h. omega arith) (λ h. omega arith) (λ h. absurd (omega arith))

on-shift : (byte i : ℕ) → i < 7 → on (byte * 2 % 256) i ≡ on byte (suc i)
on-shift byte i h =
    on_iff (byte * 2 % 256) i (omega arith)
    ∙ ap (λ x. x == 1) (shift_bit byte i (omega arith) h)
    ∙ sym (on_iff byte (suc i) (omega arith))

-- What `leading_ones` finds in a byte: the first bit that is not set, if there is one.
pub leading_ones-first :
    (k byte : ℕ)
    → k ≤ 8
    → (leading_ones k byte ≤ k)
      × (leading_ones k byte < k → on byte (leading_ones k byte) ≡ false)
      × ((i : ℕ) → i < leading_ones k byte → on byte i ≡ true)
unfolding leading_ones
leading_ones-first zero byte h =
    (omega arith, λ lt. absurd (omega arith), λ i lt. absurd (omega arith))
leading_ones-first (suc k) byte h =
    let (le, stop, before) = leading_ones-first k (byte * 2 % 256) (omega arith) in
    elim (Bool-cases (bit_and byte 128 == 0)) [
      | inl empty ↦ rw empty (omega arith, λ lt. rw empty refl, λ i lt. absurd (omega arith))
      | inr first ↦ rw first (
        omega (arith, le),
        λ lt.
            sym (on-shift byte (leading_ones k (byte * 2 % 256)) (omega (arith, le)))
            ∙ stop (omega arith),
        elim [
          | zero ↦ λ lt. rw first refl
          | suc i ↦ λ lt. sym (on-shift byte i (omega (arith, le))) ∙ before i (omega arith)
        ],
      )
    ]

pub leading_ones-zero : leading_ones 8 0 ≡ 0
unfolding leading_ones
leading_ones-zero = refl
