-- ===== src/Disk/Store.antt =====
-- kernel/fs/bcache.h: what the code above the buffer cache uses of it.
use melon_os.Common.{false, ap, ◌∙◌, ℕ, ◌≡◌, Bool, List, ◌==◌, if◌then◌else◌}
use melon_os.Disk.Types.{Call, returns}

-- The operations on a cache in state `S`. A pointer to a node is a number; `cache` and
-- `put_cache` read and write the bytes of a node in memory.
pub record BlockStore (S : Type 0) : Type 0 where
  pub bcache_read : S → ℕ → ℕ → Bool → Call (ℕ × S)
  pub bcache_write : S → ℕ → Bool → Call S
  pub bcache_release : S → ℕ → S
  pub cache : S → ℕ → List ℕ
  pub put_cache : S → ℕ → List ℕ → S
  pub blockno : S → ℕ → ℕ

-- What a caller that holds one block at a time may rely on: `block` is what is stored on the disk.
pub record StoreLaws {S : Type 0} (store : BlockStore S) : Type 1 where
  pub Idle : S → Type 0
  pub Held : S → ℕ → ℕ → Type 0
  pub block : S → ℕ → List ℕ
  pub read :
      (s : S) (dev n : ℕ) (poll : Bool)
      → Idle s
      → (b : ℕ) × (s1 : S) × (store.bcache_read s dev n poll ≡ returns (b, s1))
        × Held s1 b n
        × (store.cache s1 b ≡ block s n)
        × ((m : ℕ) → block s1 m ≡ block s m)
  pub write :
      (s : S) (b n : ℕ) (bytes : List ℕ) (poll : Bool)
      → Held s b n
      → (s1 : S) × (store.bcache_write (store.put_cache s b bytes) b poll ≡ returns s1)
        × Held s1 b n
        × (store.cache s1 b ≡ bytes)
        × ((m : ℕ) → block s1 m ≡ (if m == n then bytes else block s m))
  pub release_idle : (s : S) (b n : ℕ) → Held s b n → Idle (store.bcache_release s b)
  pub release_keeps :
      (s : S) (b n m : ℕ) → Held s b n → block (store.bcache_release s b) m ≡ block s m
  pub blockno_held : (s : S) (b n : ℕ) → Held s b n → store.blockno s b ≡ n

-- A block is read, perhaps written, and released.
pub visit :
    {S : Type 0} (store : BlockStore S) (laws : StoreLaws store) (s : S) (dev n : ℕ) (poll : Bool)
    → laws.Idle s
    → (b : ℕ) × (s1 : S) × (store.bcache_read s dev n poll ≡ returns (b, s1))
      × (store.cache s1 b ≡ laws.block s n)
      × laws.Idle (store.bcache_release s1 b)
      × ((m : ℕ) → laws.block (store.bcache_release s1 b) m ≡ laws.block s m)
      × ((bytes : List ℕ)
          → (s2 : S) × (store.bcache_write (store.put_cache s1 b bytes) b false ≡ returns s2)
            × laws.Idle (store.bcache_release s2 b)
            × ((m : ℕ)
                → laws.block (store.bcache_release s2 b) m
                  ≡ (if m == n then bytes else laws.block s m)))
visit store laws s dev n poll i =
    let (b, s1, eq, held, c, keep) = laws.read s dev n poll i in
    (
      b,
      s1,
      eq,
      c,
      laws.release_idle s1 b n held,
      λ m. laws.release_keeps s1 b n m held ∙ keep m,
      λ bytes.
          let (s2, eq2, held2, c2, keep2) = laws.write s1 b n bytes false held in
          (
            s2,
            eq2,
            laws.release_idle s2 b n held2,
            λ m.
                laws.release_keeps s2 b n m held2
                ∙ keep2 m
                ∙ ap (λ old. if m == n then bytes else old) (keep m),
          ),
    )
