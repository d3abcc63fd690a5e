-- ===== src/Memory/Word.antt =====
-- 32-bit words in byte memory, lowest byte first, as i386 loads and stores them.
use melon_os.Common.{ℕ, ◌+◌, ◌*◌, ◌/◌, ◌%◌, ◌^◌, ◌≤◌, ◌<◌, ◌≡◌, ◌⊎◌, inl, inr, Store, store, arith}

-- A cell is a byte: only its value modulo 256 is read.
unfoldable pub load32 : Store → ℕ → ℕ
load32 m a =
    m a % 256 + 256 * (m (a + 1) % 256) + 65536 * (m (a + 2) % 256) + 16777216 * (m (a + 3) % 256)

unfoldable pub store32 : Store → ℕ → ℕ → Store
store32 m a v =
    store (store (store (store m a (v % 256)) (a + 1) (v / 256 % 256)) (a + 2) (v / 65536 % 256))
      (a + 3) (v / 16777216 % 256)

pub load32-store32_self : (m : Store) (a v : ℕ) → v < 2 ^ 32 → load32 (store32 m a v) a ≡ v
unfolding load32 store32 store
load32-store32_self m a v h = ground arith

-- A store leaves every byte outside its word alone.
pub store32_outside : (m : Store) (a v b : ℕ) → (b < a) ⊎ (a + 4 ≤ b) → store32 m a v b ≡ m b
unfolding store32 store
store32_outside m a v b h = ground arith

-- A load depends on the four bytes of its word.
pub load32_cong :
    (m m' : Store) (a : ℕ) → ((b : ℕ) → a ≤ b → b < a + 4 → m' b ≡ m b) → load32 m' a ≡ load32 m a
unfolding load32
load32_cong m m' a same = omega (
  arith,
  same a (omega arith) (omega arith),
  same (a + 1) (omega arith) (omega arith),
  same (a + 2) (omega arith) (omega arith),
  same (a + 3) (omega arith) (omega arith),
)

pub load32-store32_apart :
    (m : Store) (a v b : ℕ) → (b + 4 ≤ a) ⊎ (a + 4 ≤ b) → load32 (store32 m a v) b ≡ load32 m b
load32-store32_apart m a v b (inl h) =
    load32_cong m (store32 m a v) b λ c p q. store32_outside m a v c (inl (omega arith))
load32-store32_apart m a v b (inr h) =
    load32_cong m (store32 m a v) b λ c p q. store32_outside m a v c (inr (omega arith))

-- Four zero bytes are the word 0.
pub load32-zero : (m : Store) (a : ℕ) → ((b : ℕ) → a ≤ b → b < a + 4 → m b ≡ 0) → load32 m a ≡ 0
unfolding load32
load32-zero m a z = omega (
  arith,
  z a (omega arith) (omega arith),
  z (a + 1) (omega arith) (omega arith),
  z (a + 2) (omega arith) (omega arith),
  z (a + 3) (omega arith) (omega arith),
)

pub load32-bound : (m : Store) (a : ℕ) → load32 m a < 2 ^ 32
unfolding load32
load32-bound m a = omega arith
