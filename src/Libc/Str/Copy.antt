-- ===== src/Libc/Str/Copy.antt =====
-- `strncpy` of lib/string.c: every byte that a call writes.
use melon_os.Common.{
  ℕ, zero, suc, ◌+◌, ◌-◌, ◌^◌, ◌≤◌, ◌<◌, ◌≡◌, ◌∙◌, sym, ap, ◌≢◌, ◌⊎◌, inl, inr, true, false,
  Bool-cases, not, ◌&&◌, ltb, leb, ◌==◌, if◌then◌else◌, Store, store, arith,
}
use melon_os.Libc.Str.{dec32, zero_again, strncpy_loop, strncpy}

zero_again_lem :
    (m : Store) (d k a : ℕ) → zero_again m d k a ≡ (if a == d && ltb 0 k then 0 else m a)
unfolding zero_again store
zero_again_lem m d zero a = ground arith
zero_again_lem m d (suc k) a = ground (arith, zero_again_lem (store m d 0) d k a)

-- What `strncpy` leaves at `a`, for a source whose first NUL has the index `len`.
abbrev pub copied : Store → ℕ → ℕ → ℕ → ℕ → ℕ → ℕ
copied m d s len n a =
    if leb d a && leb a (d + len)
    then m (s + (a - d))
    else if a == d + len + 1 && not (n == len + 2)
    then 0
    else m a

-- A write at the destination leaves the rest of the source as it was.
source-kept :
    (m : Store) (d s n v i : ℕ)
    → (s + suc n ≤ d) ⊎ (d + suc n < s)
    → i < n
    → store m d v (s + 1 + i) ≡ m (s + suc i)
unfolding store
source-kept m d s n v i apart h =
    let e : s + 1 + i ≡ s + suc i = omega arith in
    let off : ((s + suc i) == d) ≡ false = ground arith in rw (e, off)

copied-step :
    (m : Store) (d s len n a : ℕ)
    → suc len < suc n
    → (s + suc n ≤ d) ⊎ (d + suc n < s)
    → copied (store m d (m s)) (d + 1) (s + 1) len n a ≡ copied m d s (suc len) (suc n) a
unfolding store
copied-step m d s len n a h apart = elim (Bool-cases (leb (d + 1) a && leb a (d + 1 + len))) [
  | inl inside ↦
      let kept = source-kept m d s n (m s) (a - (d + 1)) apart (ground arith) in
      let e : s + suc (a - (d + 1)) ≡ s + (a - d) = ground arith in
      let whole : (leb d a && leb a (d + suc len)) ≡ true = ground arith in
      rw (inside, whole) (kept ∙ ap m e)
  | inr outside ↦ rw outside (ground arith)
]

strncpy_loop_lem :
    (n : ℕ) (m : Store) (d s len a : ℕ)
    → n < 2 ^ 32
    → len < n
    → (s + n ≤ d) ⊎ (d + n < s)
    → m (s + len) ≡ 0
    → ((i : ℕ) → i < len → m (s + i) ≢ 0)
    → strncpy_loop m d s n a ≡ copied m d s len n a
unfolding strncpy_loop store
strncpy_loop_lem zero m d s len a w h apart z nz = absurd (omega arith)
strncpy_loop_lem (suc n) m d s zero a w h apart z nz =
    ground (arith, zero_again_lem (store m d (m s)) (d + 1) (dec32 n) a)
strncpy_loop_lem (suc n) m d s (suc len) a w h apart z nz =
    let first : (m s == 0) ≡ false = ground (arith, nz 0) in
    rw first (
      strncpy_loop_lem n (store m d (m s)) (d + 1) (s + 1) len a (omega arith) (omega arith)
        (shift apart) (source-kept m d s n (m s) len apart (omega arith) ∙ z)
        (λ i p e.
          nz (suc i) (omega arith) (sym (source-kept m d s n (m s) i apart (omega arith)) ∙ e))
      ∙ copied-step m d s len n a h apart)
  where
    shift : (s + suc n ≤ d) ⊎ (d + suc n < s) → (s + 1 + n ≤ d + 1) ⊎ (d + 1 + n < s + 1)
    shift (inl p) = inl (omega arith)
    shift (inr p) = inr (omega arith)

-- Where the source has its first NUL at index `len < n`, and lies clear of the `n + 1` bytes from
-- `dest` on: `strncpy` copies the string with its NUL, stores one further 0 just behind it unless
-- `n = len + 2`, and changes no other byte. It does not fill up the field with zeros, and at
-- `n = len + 1` the further 0 lands outside the field.
pub strncpy_lem :
    (m : Store) (dest src len n a : ℕ)
    → n < 2 ^ 32
    → len < n
    → (src + n ≤ dest) ⊎ (dest + n < src)
    → m (src + len) ≡ 0
    → ((i : ℕ) → i < len → m (src + i) ≢ 0)
    → strncpy m dest src n a ≡ copied m dest src len n a
unfolding strncpy
strncpy_lem m dest src len n a w h apart z nz = strncpy_loop_lem n m dest src len a w h apart z nz
