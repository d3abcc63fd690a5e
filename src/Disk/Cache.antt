-- ===== src/Disk/Cache.antt =====
-- kernel/fs/bcache.c: the ring of buffers.
pub mod Solo
pub mod Held
pub mod Visits
use melon_os.Common.{
  ℕ, zero, suc, ◌+◌, ◌-◌, ◌%◌, ◌^◌, Bool, true, false, ◌&&◌, not, ◌==◌, if◌then◌else◌, Option, none,
  some, length, replicate,
}
use melon_os.Disk.Types.{
  Call, returns, panics, spins, ◌>>=◌, Ide, BNode, Disk, node_at, put_node, zero_node, bsize,
}
use melon_os.Disk.Sync.{disk_sync}

abbrev pub caches : ℕ → ℕ → BNode → Bool
caches dev blockno b = (b.dev == dev) && (b.blockno == blockno)

abbrev pub unused : BNode → Bool
unused b = (b.nref == 0) && not b.dirty

module _ {D : Type 0} where
  abbrev pub set_next : Disk D → ℕ → ℕ → Disk D
  set_next s b c = put_node s b (record (node_at s b) { next = c })

  abbrev pub set_prev : Disk D → ℕ → ℕ → Disk D
  set_prev s b c = put_node s b (record (node_at s b) { prev = c })

  -- `for (BNode *b = head + 1; b <= tail; ++b)` for so many nodes from `b` on
  unfoldable pub link_loop : ℕ → Disk D → ℕ → Disk D
  link_loop zero s b = s
  link_loop (suc n) s b =
      let s1 = set_prev s b s.head in
      let s2 = set_next s1 (node_at s1 b).prev b in link_loop n (record s2 { head = b }) (suc b)

  -- `bcache_init` with `NBUF` nodes
  unfoldable pub bcache_init : ℕ → D → Disk D
  bcache_init nbuf drive =
      let tail = nbuf - 1 in
      let s : Disk D = record {
        buffer = replicate nbuf zero_node;
        head = 0;
        queue = none;
        drive = drive;
      } in
      let s1 = set_prev (set_next s 0 0) 0 tail in
      let s2 = set_prev (set_next s1 tail 0) tail tail in link_loop tail s2 1

  -- The loop over the ring, from `b`, up to a node that passes. When it is not back at the head
  -- after as many nodes as there are, it never comes back.
  unfoldable pub ring_find : (BNode → Bool) → ℕ → Disk D → ℕ → Call (Option ℕ)
  ring_find test zero s b = spins
  ring_find test (suc n) s b =
      let rest = ring_find test n s (node_at s b).next in
      if test (node_at s b)
      then returns (some b)
      else if (node_at s b).next == s.head
      then returns none
      else rest

  -- `b->nref++` on the node that has been found
  abbrev pub ref_found : Disk D → Option ℕ → Option ℕ × Disk D
  ref_found s none = (none, s)
  ref_found s (some b) =
      let x = node_at s b in (some b, put_node s b (record x { nref = (x.nref + 1) % 2 ^ 32 }))

  unfoldable pub bcachce_lookup : Disk D → ℕ → ℕ → Call (Option ℕ × Disk D)
  bcachce_lookup s dev blockno = do
    found ← ring_find (caches dev blockno) (length s.buffer) s s.head
    returns (ref_found s found)

  abbrev pub claim_found : Disk D → ℕ → ℕ → Option ℕ → Option ℕ × Disk D
  claim_found s dev blockno none = (none, s)
  claim_found s dev blockno (some b) = (
    some b,
    put_node s b (record (node_at s b) {
      nref = 1;
      dev = dev;
      blockno = blockno;
      dirty = false;
      valid = false;
    }),
  )

  unfoldable pub bcache_allocate : Disk D → ℕ → ℕ → Call (Option ℕ × Disk D)
  bcache_allocate s dev blockno = do
    found ← ring_find unused (length s.buffer) s s.head
    returns (claim_found s dev blockno found)

  unfoldable pub bcache_acquire : Disk D → ℕ → ℕ → Call (Option ℕ × Disk D)
  bcache_acquire s dev blockno = do
    cached ← bcachce_lookup s dev blockno
    elim cached.0 [ none ↦ bcache_allocate s dev blockno | some b ↦ returns cached ]

  -- `b->next->prev = b->prev; b->prev->next = b->next;`
  unfoldable pub unlink : Disk D → ℕ → Disk D
  unlink s b =
      let s1 = set_prev s (node_at s b).next (node_at s b).prev in
      set_next s1 (node_at s1 b).prev (node_at s1 b).next

  -- `b->next = bcache.head; b->prev = bcache.head->prev;`
  unfoldable pub point_front : Disk D → ℕ → Disk D
  point_front s b = let s1 = set_next s b s.head in set_prev s1 b (node_at s1 s1.head).prev

  abbrev pub clear_flags : Disk D → ℕ → Disk D
  clear_flags s b = put_node s b (record (node_at s b) { valid = false; dirty = false })

  -- `bcache.head->prev = b; bcache.head = b;`
  unfoldable pub become_head : Disk D → ℕ → Disk D
  become_head s b = record (set_prev s s.head b) { head = b }

  -- `memset(b->cache, 0, sizeof(b->cache))`
  abbrev pub clear_cache : Disk D → ℕ → Disk D
  clear_cache s b = put_node s b (record (node_at s b) { cache = replicate bsize 0 })

  -- what `bcache_free` does with a node nobody refers to
  unfoldable pub move_front : Disk D → ℕ → Disk D
  move_front s b = clear_cache (become_head (clear_flags (point_front (unlink s b) b) b) b) b

  -- `bcache_release`, which is `bcache_free`; `nref` is unsigned
  unfoldable pub bcache_release : Disk D → ℕ → Disk D
  bcache_release s b =
      let x = node_at s b in
      let s1 = put_node s b (record x { nref = (x.nref + (2 ^ 32 - 1)) % 2 ^ 32 }) in
      if (node_at s1 b).nref == 0 then move_front s1 b else s1

module _ {D : Type 0} (ide : Ide D) where
  unfoldable pub bcache_read : Disk D → ℕ → ℕ → Bool → Call (ℕ × Disk D)
  bcache_read s dev blockno poll = do
    (found, s1) ← bcache_acquire s dev blockno
    elim found [
      | none ↦ panics
      | some b ↦
          if (node_at s1 b).valid
          then returns (b, s1)
          else (do s2 ← disk_sync ide s1 b poll; returns (b, s2))
    ]

  unfoldable pub bcache_write : Disk D → ℕ → Bool → Call (Disk D)
  bcache_write s b poll =
      disk_sync ide (put_node s b (record (node_at s b) { dirty = true })) b poll
