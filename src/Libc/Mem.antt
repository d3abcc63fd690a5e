-- ===== src/Libc/Mem.antt =====
-- lib/string.c: `memset`, `memmove` and `memcpy` over byte memory. An object does not wrap round
-- the end of the address space, so addresses are plain numbers.
use melon_os.Common.{
  ℕ, zero, suc, ◌+◌, ◌-◌, ◌%◌, ◌≤◌, ◌≡◌, ◌⊎◌, inl, inr, ◌&&◌, ltb, leb, if◌then◌else◌, Bool-cases,
  false, fun_ext, Store, store, arith,
}

-- `while (n--) *p++ = (unsigned char)v & 0xff;`
fill : Store → ℕ → ℕ → ℕ → Store
fill m p v zero = m
fill m p v (suc n) = fill (store m p (v % 256)) (p + 1) v n

unfoldable pub memset : Store → ℕ → ℕ → ℕ → Store
unfolding fill
memset m tgt v n = fill m tgt v n

-- `while (n--) *d++ = *s++;`
copy_up : Store → ℕ → ℕ → ℕ → Store
copy_up m d s zero = m
copy_up m d s (suc n) = copy_up (store m d (m s)) (d + 1) (s + 1) n

-- `while (n--) *d-- = *s--;`
copy_down : Store → ℕ → ℕ → ℕ → Store
copy_down m d s zero = m
copy_down m d s (suc n) = copy_down (store m d (m s)) (d - 1) (s - 1) n

unfoldable pub memmove : Store → ℕ → ℕ → ℕ → Store
unfolding copy_up copy_down
memmove m dest src n =
    if ltb src dest && ltb dest (src + n)
    then copy_down m (dest + n - 1) (src + n - 1) n
    else copy_up m dest src n

-- `for (int i = 0; i < n; ++i) dest[i] = src[i];` from index `i` with `k` rounds left
copy_from : Store → ℕ → ℕ → ℕ → ℕ → Store
copy_from m dest src i zero = m
copy_from m dest src i (suc k) = copy_from (store m (dest + i) (m (src + i))) dest src (i + 1) k

unfoldable pub memcpy : Store → ℕ → ℕ → ℕ → Store
unfolding copy_from
memcpy m dest src n = copy_from m dest src 0 n

fill_lem :
    (m : Store) (p v n a : ℕ) → fill m p v n a ≡ (if leb p a && ltb a (p + n) then v % 256 else m a)
unfolding fill store
fill_lem m p v zero a = ground arith
fill_lem m p v (suc n) a = ground (arith, fill_lem (store m p (v % 256)) (p + 1) v n a)

-- `memset` stores the low byte of `v` at each of the `n` addresses from `p` on, and nowhere else.
pub memset_lem :
    (m : Store) (p v n a : ℕ)
    → memset m p v n a ≡ (if leb p a && ltb a (p + n) then v % 256 else m a)
unfolding memset
memset_lem m p v n a = fill_lem m p v n a

copy_up_lem :
    (m : Store) (d s n a : ℕ)
    → (d ≤ s) ⊎ (s + n ≤ d)
    → copy_up m d s n a ≡ (if leb d a && ltb a (d + n) then m (s + (a - d)) else m a)
unfolding copy_up store
copy_up_lem m d s zero a h = ground arith
copy_up_lem m d s (suc n) a h =
    ground (arith, copy_up_lem (store m d (m s)) (d + 1) (s + 1) n a (past h))
  where
    past : (d ≤ s) ⊎ (s + suc n ≤ d) → (d + 1 ≤ s + 1) ⊎ (s + 1 + n ≤ d + 1)
    past (inl p) = inl (omega arith)
    past (inr p) = inr (omega arith)

-- `e` and `f` are the last addresses of the two ranges.
copy_down_lem :
    (m : Store) (e f n a : ℕ)
    → f ≤ e
    → n ≤ f + 1
    → copy_down m e f n a ≡ (if ltb e (a + n) && leb a e then m (f + a - e) else m a)
unfolding copy_down store
copy_down_lem m e f zero a h k = ground arith
copy_down_lem m e f (suc n) a h k =
    ground (arith, copy_down_lem (store m e (m f)) (e - 1) (f - 1) n a)

-- `memmove` moves the `n` bytes as they were before the call, whether or not the two ranges
-- overlap, and changes no other byte.
pub memmove_lem :
    (m : Store) (dest src n a : ℕ)
    → memmove m dest src n a
      ≡ (if leb dest a && ltb a (dest + n) then m (src + (a - dest)) else m a)
unfolding memmove
memmove_lem m dest src n a = elim (Bool-cases (ltb src dest && ltb dest (src + n))) [
  | inl down ↦ rw down (ground (arith, copy_down_lem m (dest + n - 1) (src + n - 1) n a))
  | inr up ↦ rw up (copy_up_lem m dest src n a (apart up))
]
  where
    apart : (ltb src dest && ltb dest (src + n)) ≡ false → (dest ≤ src) ⊎ (src + n ≤ dest)
    apart e = ground arith

copy_from_lem :
    (m : Store) (dest src i k a : ℕ)
    → (dest ≤ src) ⊎ (src + i + k ≤ dest)
    → copy_from m dest src i k a
      ≡ (if leb (dest + i) a && ltb a (dest + i + k) then m (src + (a - dest)) else m a)
unfolding copy_from store
copy_from_lem m dest src i zero a h = ground arith
copy_from_lem m dest src i (suc k) a h =
    ground (arith, copy_from_lem (store m (dest + i) (m (src + i))) dest src (i + 1) k a (past h))
  where
    past : (dest ≤ src) ⊎ (src + i + suc k ≤ dest) → (dest ≤ src) ⊎ (src + (i + 1) + k ≤ dest)
    past (inl p) = inl p
    past (inr p) = inr (omega arith)

-- Where the destination does not start inside the source, `memcpy` leaves memory as `memmove`
-- does.
pub memcpy-memmove :
    (m : Store) (dest src n : ℕ)
    → (dest ≤ src) ⊎ (src + n ≤ dest)
    → memcpy m dest src n ≡ memmove m dest src n
unfolding memcpy
memcpy-memmove m dest src n h =
    fun_ext
      λ a. ground (arith, copy_from_lem m dest src 0 n a (start h), memmove_lem m dest src n a)
  where
    start : (dest ≤ src) ⊎ (src + n ≤ dest) → (dest ≤ src) ⊎ (src + 0 + n ≤ dest)
    start (inl p) = inl p
    start (inr p) = inr (omega arith)
