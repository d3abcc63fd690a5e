-- ===== src/Disk/Cache/Visits.antt =====
-- kernel/fs/bcache.c with kernel/fs/disk.c: a block is read, written and released.
use melon_os.Common.{
  ℕ, ◌≡◌, ◌≢◌, refl, ◌∙◌, ap, Bool, true, ◌==◌, if◌then◌else◌, List, arith, get_or-set_self,
}
use melon_os.Disk.Types.{returns, panics, Ide, BNode, Disk, node_at, put_node, zero_node}
use melon_os.Disk.Sync.{blk2sec}
use melon_os.Disk.Sync.Requests.{IdeLaws, answer}
use melon_os.Disk.Cache.{bcache_read, bcache_write, bcache_release}
use melon_os.Disk.Cache.Solo.{IsIdle, IsHeld, claimed, acquire-Held}
use melon_os.Disk.Store.{StoreLaws}
use melon_os.Disk.Cache.Held.{
  bcache_store, answered_at, answered-IsHeld, read-Idle, write-Held, release-IsIdle, release-drive,
}

module _ {D : Type 0} (ide : Ide D) (laws : IdeLaws ide) where
  -- what is stored in the block
  abbrev pub stored : Disk D → ℕ → List ℕ
  stored s n = laws.sector s.drive (blk2sec n)

  pub bcache_read-IsHeld :
      (s : Disk D) (dev n : ℕ) (poll : Bool)
      → IsIdle s
      → (s1 : Disk D) × (bcache_read ide s dev n poll ≡ returns (s.head, s1))
        × IsHeld s1 s.head n
        × ((node_at s1 s.head).cache ≡ stored s n)
        × ((m : ℕ) → stored s1 m ≡ stored s m)
  bcache_read-IsHeld s dev n poll i =
      let b = s.head in
      let x = claimed dev n (node_at s b) in
      let (q, eq) = read-Idle ide s dev n poll i in
      let z : BNode = record (answer ide s.drive x) { qnext = q } in
      (
        answered_at ide s b x q,
        eq,
        answered-IsHeld ide s b n x q i.within refl i.alone i.alone_back refl refl i.no_queue,
        ap (λ (y : BNode). y.cache) (get_or-set_self s.buffer b z zero_node i.within)
            ∙ laws.answered s.drive (blk2sec n),
        λ m. laws.asked s.drive (blk2sec n) (blk2sec m),
      )

  pub bcache_write-IsHeld :
      (s : Disk D) (b n : ℕ) (bytes : List ℕ) (poll : Bool)
      → IsHeld s b n
      → (s1 : Disk D) × (bcache_write ide
            (put_node s b (record (node_at s b) { cache = bytes }))
            b
            poll
          ≡ returns s1)
        × IsHeld s1 b n
        × ((node_at s1 b).cache ≡ bytes)
        × ((m : ℕ) → stored s1 m ≡ (if m == n then bytes else stored s m))
  bcache_write-IsHeld s b n bytes poll h =
      let x : BNode = record (node_at s b) { cache = bytes; dirty = true } in
      let (q, eq) = write-Held ide s b n bytes poll h in
      let z : BNode = record (answer ide s.drive x) { qnext = q } in
      let same : (m : ℕ) → (blk2sec m == blk2sec x.blockno) ≡ (m == n) =
        λ m. rw h.holds (ground arith) in
      (
        answered_at ide s b x q,
        eq,
        answered-IsHeld ide s b n x q h.within h.is_head h.alone h.alone_back h.once h.holds
            h.no_queue,
        ap (λ (y : BNode). y.cache) (get_or-set_self s.buffer b z zero_node h.within),
        λ m.
            laws.written s.drive bytes (blk2sec x.blockno) (blk2sec m)
            ∙ ap (λ c. if c then bytes else stored s m) (same m),
      )

  bcache_read-panics :
      (s : Disk D) (b dev n m : ℕ) (poll : Bool)
      → IsHeld s b n
      → m ≢ n
      → bcache_read ide s dev m poll ≡ panics
  unfolding bcache_read
  bcache_read-panics s b dev n m poll h ne = rw (acquire-Held s b dev n m h ne) refl

  -- From an idle cache `bcache_read` gives a node with the bytes of the block on the disk. As long as
  -- it is held, `bcache_read` of any other block panics. `bcache_write` of new bytes in the node
  -- stores them in that block and in no other. In both cases the release leaves an idle cache and
  -- the disk as it is.
  pub visit_lem :
      (s : Disk D) (dev n : ℕ) (poll : Bool)
      → IsIdle s
      → (s1 : Disk D) × (bcache_read ide s dev n poll ≡ returns (s.head, s1))
        × ((node_at s1 s.head).cache ≡ stored s n)
        × ((m : ℕ) → stored (bcache_release s1 s.head) m ≡ stored s m)
        × IsIdle (bcache_release s1 s.head)
        × ((dev2 m : ℕ) (poll2 : Bool) → m ≢ n → bcache_read ide s1 dev2 m poll2 ≡ panics)
        × ((bytes : List ℕ) (poll2 : Bool)
            → (s2 : Disk D) × (bcache_write ide
                  (put_node s1 s.head (record (node_at s1 s.head) { cache = bytes }))
                  s.head
                  poll2
                ≡ returns s2)
              × IsIdle (bcache_release s2 s.head)
              × ((m : ℕ)
                  → stored (bcache_release s2 s.head) m ≡ (if m == n then bytes else stored s m)))
  visit_lem s dev n poll i =
      let (s1, eq, held, bytes_eq, kept) = bcache_read-IsHeld s dev n poll i in
      (
        s1,
        eq,
        bytes_eq,
        λ m. ap (λ d. laws.sector d (blk2sec m)) (release-drive s1 s.head n held) ∙ kept m,
        release-IsIdle s1 s.head n held,
        λ dev2 m poll2 ne. bcache_read-panics s1 s.head dev2 n m poll2 held ne,
        λ bytes poll2.
            let (s2, eq2, held2, c2, w2) = bcache_write-IsHeld s1 s.head n bytes poll2 held in
            (
              s2,
              eq2,
              release-IsIdle s2 s.head n held2,
              λ m.
                  ap (λ d. laws.sector d (blk2sec m)) (release-drive s2 s.head n held2)
                  ∙ w2 m
                  ∙ ap (λ old. if m == n then bytes else old) (kept m),
            ),
      )

  -- The cache offers what the code above it uses.
  abbrev pub bcache_laws : StoreLaws (bcache_store ide)
  bcache_laws = record {
    Idle = IsIdle;
    Held = IsHeld;
    block = stored;
    read = λ s dev n poll i.
        let (s1, e, h, c, k) = bcache_read-IsHeld s dev n poll i in (s.head, s1, e, h, c, k);
    write = bcache_write-IsHeld;
    release_idle = release-IsIdle;
    release_keeps = λ s b n m h. ap (λ d. laws.sector d (blk2sec m)) (release-drive s b n h);
    blockno_held = λ s b n h. h.holds;
  }
