-- ===== src/Libc/Str.antt =====
-- lib/string.c: the routines on C strings, bytes of memory up to a NUL. `char` is signed on i386.
pub mod Copy
use melon_os.Common.{
  ℕ, zero, suc, ◌+◌, ◌-◌, ◌%◌, ◌^◌, ◌≤◌, ◌<◌, ◌≡◌, refl, ◌≢◌, ◌↔◌, not, ◌&&◌, ◌==◌, if◌then◌else◌,
  Option, none, some, List, [], ◌∷◌, Store, store, arith,
}
use melon_os.Common.Int.{ℤ, pos, sub_ℕ, sub_ℕ-zero_iff}

-- The value of a byte read as a `char`, raised by 128.
abbrev biased : ℕ → ℕ
biased b = (b + 128) % 256

-- `*s1 - *s2`
abbrev char_diff : ℕ → ℕ → ℤ
char_diff a b = sub_ℕ (biased a) (biased b)

-- `for (; s[n]; n++);`, `none` where the fuel runs out
strlen_loop : ℕ → Store → ℕ → ℕ → Option ℕ
strlen_loop zero m s n = none
strlen_loop (suc fuel) m s n =
    let rest = strlen_loop fuel m s (n + 1) in if m (s + n) == 0 then some n else rest

unfoldable pub strlen : ℕ → Store → ℕ → Option ℕ
unfolding strlen_loop
strlen fuel m s = strlen_loop fuel m s 0

unfoldable pub strncmp : Store → ℕ → ℕ → ℕ → ℤ
strncmp m s1 s2 zero = pos 0
strncmp m s1 s2 (suc n) =
    if not (m s1 == 0) && not (m s2 == 0) && m s1 == m s2
    then strncmp m (s1 + 1) (s2 + 1) n
    else char_diff (m s1) (m s2)

unfoldable pub memcmp : Store → ℕ → ℕ → ℕ → ℤ
memcmp m s1 s2 zero = pos 0
memcmp m s1 s2 (suc n) =
    let rest = memcmp m (s1 + 1) (s2 + 1) n in
    if m s1 == m s2 then rest else char_diff (m s1) (m s2)

-- `while (--n) *d = 0;` once `--n` has left `k`
zero_again : Store → ℕ → ℕ → Store
zero_again m d zero = m
zero_again m d (suc k) = zero_again (store m d 0) d k

-- `--n` on a `size_t`
abbrev dec32 : ℕ → ℕ
dec32 n = (n + 2 ^ 32 - 1) % 2 ^ 32

strncpy_loop : Store → ℕ → ℕ → ℕ → Store
strncpy_loop m d s zero = m
strncpy_loop m d s (suc n) =
    let m' = store m d (m s) in
    if m s == 0 then zero_again m' (d + 1) (dec32 n) else strncpy_loop m' (d + 1) (s + 1) n

unfoldable pub strncpy : Store → ℕ → ℕ → ℕ → Store
unfolding strncpy_loop zero_again
strncpy m dest src n = strncpy_loop m dest src n

-- The bytes of a string before its NUL, at most `n` of them.
abbrev pub chars : Store → ℕ → ℕ → List ℕ
chars m s zero = []
chars m s (suc n) = if m s == 0 then [] else m s ∷ chars m (s + 1) n

strlen_loop-stops :
    (fuel : ℕ) (m : Store) (s n len : ℕ)
    → m (s + len) ≡ 0
    → ((i : ℕ) → i < len → m (s + i) ≢ 0)
    → n ≤ len
    → len < n + fuel
    → strlen_loop fuel m s n ≡ some len
unfolding strlen_loop
strlen_loop-stops zero m s n len z nz h f = absurd (omega arith)
strlen_loop-stops (suc fuel) m s n len z nz h f =
    ground (arith, nz n, strlen_loop-stops fuel m s (n + 1) len z nz)

-- With more fuel than the string is long, `strlen` returns the index of the first NUL.
pub strlen_lem :
    (fuel : ℕ) (m : Store) (s len : ℕ)
    → m (s + len) ≡ 0
    → ((i : ℕ) → i < len → m (s + i) ≢ 0)
    → len < fuel
    → strlen fuel m s ≡ some len
unfolding strlen
strlen_lem fuel m s len z nz h = strlen_loop-stops fuel m s 0 len z nz (omega arith) (omega arith)

-- `strncmp` returns 0 exactly when the two strings have the same bytes up to a NUL or to `n`.
pub strncmp-zero_iff :
    (m : Store) (s1 s2 n : ℕ)
    → ((a : ℕ) → m a < 256)
    → (strncmp m s1 s2 n ≡ pos 0) ↔ (chars m s1 n ≡ chars m s2 n)
unfolding strncmp
strncmp-zero_iff m s1 s2 zero bytes = (λ _. refl, λ _. refl)
strncmp-zero_iff m s1 s2 (suc n) bytes =
    let ih = strncmp-zero_iff m (s1 + 1) (s2 + 1) n bytes in
    let b1 = bytes s1 in
    let b2 = bytes s2 in ground (arith, sub_ℕ-zero_iff (biased (m s1)) (biased (m s2)))

-- `n` bytes from `s` on
abbrev pub bytes_at : Store → ℕ → ℕ → List ℕ
bytes_at m s zero = []
bytes_at m s (suc n) = m s ∷ bytes_at m (s + 1) n

-- `memcmp` returns 0 exactly when the two ranges hold the same bytes.
pub memcmp-zero_iff :
    (m : Store) (s1 s2 n : ℕ)
    → ((a : ℕ) → m a < 256)
    → (memcmp m s1 s2 n ≡ pos 0) ↔ (bytes_at m s1 n ≡ bytes_at m s2 n)
unfolding memcmp
memcmp-zero_iff m s1 s2 zero bytes = (λ _. refl, λ _. refl)
memcmp-zero_iff m s1 s2 (suc n) bytes =
    let ih = memcmp-zero_iff m (s1 + 1) (s2 + 1) n bytes in
    let b1 = bytes s1 in
    let b2 = bytes s2 in ground (arith, sub_ℕ-zero_iff (biased (m s1)) (biased (m s2)))
