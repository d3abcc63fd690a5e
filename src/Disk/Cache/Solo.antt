-- ===== src/Disk/Cache/Solo.antt =====
-- The ring of buffers after the first release of its head: one node, that points to itself.
use melon_os.Common.{
  ◌≢◌, set-get_or, sym, ◌∙◌, replicate, ℕ, suc, ◌+◌, ◌%◌, ◌^◌, ◌<◌, ◌≡◌, refl, ap, Bool, true,
  false, ==_refl, none, some, List, length, arith, inl, inr, Bool-cases,
}
use melon_os.Disk.Types.{returns, BNode, Disk, node_at, put_node, zero_node, bsize}
use melon_os.Disk.Sync.Requests.{positive, node_at-put, put_node-twice}
use melon_os.Disk.Cache.{
  move_front, clear_cache, clear_flags, become_head, point_front, unlink, set_next, set_prev,
  ring_find, caches, unused, bcachce_lookup, bcache_acquire, bcache_allocate,
}

-- The node that an idle cache gives for a block.
abbrev pub claimed : ℕ → ℕ → BNode → BNode
claimed dev blockno x = record x {
  nref = 1;
  dev = dev;
  blockno = blockno;
  dirty = false;
  valid = false;
}

claimed-found :
    (x : BNode) (dev blockno : ℕ)
    → caches dev blockno x ≡ true
    → x.nref ≡ 0
    → x.dirty ≡ false
    → x.valid ≡ false
    → record x { nref = (x.nref + 1) % 2 ^ 32 } ≡ claimed dev blockno x
claimed-found x dev blockno c f d v =
    let e1 : x.dev ≡ dev = ground arith in
    let e2 : x.blockno ≡ blockno = ground arith in rw (f, e1, e2, d, v)

module _ {D : Type 0} where
  -- No block is held: the ring is one node without references, and nothing is queued.
  pub record IsIdle (s : Disk D) : Type 0 where
    pub within : s.head < length s.buffer
    pub alone : (node_at s s.head).next ≡ s.head
    pub alone_back : (node_at s s.head).prev ≡ s.head
    pub free : (node_at s s.head).nref ≡ 0
    pub clean : (node_at s s.head).dirty ≡ false
    pub stale : (node_at s s.head).valid ≡ false
    pub no_queue : s.queue ≡ none

  -- The head holds the block.
  pub record IsHeld (s : Disk D) (b blockno : ℕ) : Type 0 where
    pub is_head : b ≡ s.head
    pub within : b < length s.buffer
    pub alone : (node_at s b).next ≡ b
    pub alone_back : (node_at s b).prev ≡ b
    pub once : (node_at s b).nref ≡ 1
    pub clean : (node_at s b).dirty ≡ false
    pub fresh : (node_at s b).valid ≡ true
    pub holds : (node_at s b).blockno ≡ blockno
    pub no_queue : s.queue ≡ none

  ring_find-hit :
      (test : BNode → Bool) (n : ℕ) (s : Disk D) (b : ℕ)
      → test (node_at s b) ≡ true
      → ring_find test (suc n) s b ≡ returns (some b)
  unfolding ring_find
  ring_find-hit test n s b h = rw h

  ring_find-miss :
      (test : BNode → Bool) (n : ℕ) (s : Disk D)
      → test (node_at s s.head) ≡ false
      → (node_at s s.head).next ≡ s.head
      → ring_find test (suc n) s s.head ≡ returns none
  unfolding ring_find
  ring_find-miss test n s h e = rw (h, e, ==_refl s.head)

  pub acquire-Idle :
      (s : Disk D) (dev blockno : ℕ)
      → IsIdle s
      → bcache_acquire s dev blockno
        ≡ returns (some s.head, put_node s s.head (claimed dev blockno (node_at s s.head)))
  unfolding bcache_acquire bcachce_lookup bcache_allocate
  acquire-Idle s dev blockno i =
      let (k, size) = positive (length s.buffer) s.head i.within in
      elim (Bool-cases (caches dev blockno (node_at s s.head))) [
        | inl on ↦
            let found = ring_find-hit (caches dev blockno) k s s.head on in
            rw (size, found)
              (ap (λ x. returns (some s.head, put_node s s.head x))
                (claimed-found (node_at s s.head) dev blockno on i.free i.clean i.stale))
        | inr off ↦
            let missing = ring_find-miss (caches dev blockno) k s off i.alone in
            let free : unused (node_at s s.head) ≡ true = rw (i.free, i.clean) in
            let found = ring_find-hit unused k s s.head free in
            rw (size, missing, bcache_allocate, size, found)
      ]

  -- While the head holds a block, no other can be had.
  pub acquire-Held :
      (s : Disk D) (b dev n m : ℕ)
      → IsHeld s b n
      → m ≢ n
      → bcache_acquire s dev m ≡ returns (none, s)
  unfolding bcache_acquire bcachce_lookup bcache_allocate
  acquire-Held s b dev n m h ne =
      let (k, size) = positive (length s.buffer) b h.within in
      let x = node_at s s.head in
      let at_head : (f : BNode → ℕ) → f x ≡ f (node_at s b) =
        λ f. ap (λ c. f (node_at s c)) (sym h.is_head) in
      let next : x.next ≡ s.head = at_head (λ (y : BNode). y.next) ∙ h.alone ∙ h.is_head in
      let other : x.blockno ≡ n = at_head (λ (y : BNode). y.blockno) ∙ h.holds in
      let once : x.nref ≡ 1 = at_head (λ (y : BNode). y.nref) ∙ h.once in
      let uncached : caches dev m x ≡ false = rw other (ground arith) in
      let used : unused x ≡ false = rw once refl in
      rw
        (
          size,
          ring_find-miss (caches dev m) k s uncached next,
          bcache_allocate,
          size,
          ring_find-miss unused k s used next,
        )
        refl

  -- Storing the link a node has changes nothing.
  set_next-same : (s : Disk D) (b c : ℕ) → (node_at s b).next ≡ c → set_next s b c ≡ s
  set_next-same s b c h =
      rw (← h)
        (ap (λ (bs : List BNode). record s { buffer = bs }) (set-get_or s.buffer b zero_node))

  set_prev-same : (s : Disk D) (b c : ℕ) → (node_at s b).prev ≡ c → set_prev s b c ≡ s
  set_prev-same s b c h =
      rw (← h)
        (ap (λ (bs : List BNode). record s { buffer = bs }) (set-get_or s.buffer b zero_node))

  unlink-alone :
      (s : Disk D) (b : ℕ) → (node_at s b).next ≡ b → (node_at s b).prev ≡ b → unlink s b ≡ s
  unfolding unlink
  unlink-alone s b n p =
      let e : set_prev s (node_at s b).next (node_at s b).prev ≡ s =
        rw n (set_prev-same s b (node_at s b).prev refl) in
      ap (λ t. set_next t (node_at t b).prev (node_at t b).next) e
      ∙ rw p (set_next-same s b (node_at s b).next refl)

  point_front-alone :
      (s : Disk D) (b : ℕ)
      → b ≡ s.head
      → (node_at s b).next ≡ b
      → (node_at s b).prev ≡ b
      → point_front s b ≡ s
  unfolding point_front
  point_front-alone s b e n p =
      ap (λ t. set_prev t b (node_at t t.head).prev) (set_next-same s b s.head (n ∙ e))
      ∙ set_prev-same s b (node_at s s.head).prev (ap (λ c. (node_at s c).prev) e)

  become_head-alone :
      (s : Disk D) (b : ℕ) → b ≡ s.head → (node_at s b).prev ≡ b → become_head s b ≡ s
  unfolding become_head
  become_head-alone s b e p =
      ap (λ (t : Disk D). record t { head = b })
        (set_prev-same s s.head b (ap (λ c. (node_at s c).prev) (sym e) ∙ p))
      ∙ ap (λ h. record s { head = h }) e

  pub move_front-alone :
      (s : Disk D) (b : ℕ)
      → b < length s.buffer
      → b ≡ s.head
      → (node_at s b).next ≡ b
      → (node_at s b).prev ≡ b
      → move_front s b
        ≡ put_node s b
            (record (node_at s b) { valid = false; dirty = false; cache = replicate bsize 0 })
  unfolding move_front
  move_front-alone s b h e n p =
      let x : BNode = record (node_at s b) { valid = false; dirty = false } in
      let t = put_node s b x in
      let at_x = node_at-put s b x h in
      ap (λ u. clear_cache (become_head (clear_flags (point_front u b) b) b) b)
        (unlink-alone s b n p)
      ∙ ap (λ u. clear_cache (become_head (clear_flags u b) b) b) (point_front-alone s b e n p)
      ∙ ap (λ u. clear_cache u b) (become_head-alone t b e (ap (λ (y : BNode). y.prev) at_x ∙ p))
      ∙ ap (λ (y : BNode). put_node t b (record y { cache = replicate bsize 0 })) at_x
      ∙ put_node-twice s b x (record x { cache = replicate bsize 0 })
