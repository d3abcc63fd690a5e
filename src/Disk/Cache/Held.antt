-- ===== src/Disk/Cache/Held.antt =====
-- kernel/fs/bcache.c with kernel/fs/disk.c: the node that holds a block, step by step.
use melon_os.Common.{
  subst, ℕ, ◌+◌, ◌-◌, ◌%◌, ◌^◌, ◌<◌, ◌≡◌, refl, sym, ◌∙◌, ap, Bool, true, false, ◌==◌, if-on,
  if-off, Option, none, List, set, length, replicate, arith, length-set, get_or-set_self, set-set,
}
use melon_os.Disk.Types.{
  Call, returns, ◌>>=◌, Ide, BNode, Disk, node_at, put_node, zero_node, bsize,
}
use melon_os.Disk.Sync.{disk_sync}
use melon_os.Disk.Sync.Requests.{
  requested, answer, after_sync, disk_sync_lem, node_at-put, put_node-twice,
}
use melon_os.Disk.Cache.{bcache_read, bcache_write, bcache_release, move_front}
use melon_os.Disk.Cache.Solo.{IsIdle, IsHeld, claimed, acquire-Idle, move_front-alone}
use melon_os.Disk.Store.{BlockStore}

-- The cache as the code above it sees it.
abbrev pub bcache_store : {D : Type 0} → Ide D → BlockStore (Disk D)
bcache_store ide = record {
  bcache_read = bcache_read ide;
  bcache_write = bcache_write ide;
  bcache_release = bcache_release;
  cache = λ s b. (node_at s b).cache;
  put_cache = λ s b bytes. put_node s b (record (node_at s b) { cache = bytes });
  blockno = λ s b. (node_at s b).blockno;
}

module _ {D : Type 0} (ide : Ide D) where
  -- the cache with the node `x` behind a command for it
  abbrev pub answered_at : Disk D → ℕ → BNode → Option ℕ → Disk D
  answered_at s b x q = record s {
    buffer = set s.buffer b (record (answer ide s.drive x) { qnext = q });
    drive = requested ide s.drive x;
  }

  pub after_sync-put :
      (s : Disk D) (b : ℕ) (x : BNode) (q : Option ℕ)
      → b < length s.buffer
      → after_sync ide (put_node s b x) b q ≡ answered_at s b x q
  after_sync-put s b x q h =
      let z : BNode = record (answer ide s.drive x) { qnext = q } in
      ap (λ (y : BNode). answered_at (put_node s b x) b y q) (node_at-put s b x h)
      ∙ ap (λ (bs : List BNode). record s { buffer = bs; drive = requested ide s.drive x })
          (set-set s.buffer b x z)

  pub answered-IsHeld :
      (s : Disk D) (b n : ℕ) (x : BNode) (q : Option ℕ)
      → b < length s.buffer
      → b ≡ s.head
      → x.next ≡ b
      → x.prev ≡ b
      → x.nref ≡ 1
      → x.blockno ≡ n
      → s.queue ≡ none
      → IsHeld (answered_at s b x q) b n
  answered-IsHeld s b n x q h e nx px one bno empty =
      let z : BNode = record (answer ide s.drive x) { qnext = q } in
      let at_z : node_at (answered_at s b x q) b ≡ z = get_or-set_self s.buffer b z zero_node h in
      record {
        is_head = e;
        within = rw (length-set s.buffer b z) h;
        alone = ap (λ (y : BNode). y.next) at_z ∙ nx;
        alone_back = ap (λ (y : BNode). y.prev) at_z ∙ px;
        once = ap (λ (y : BNode). y.nref) at_z ∙ one;
        clean = ap (λ (y : BNode). y.dirty) at_z;
        fresh = ap (λ (y : BNode). y.valid) at_z;
        holds = ap (λ (y : BNode). y.blockno) at_z ∙ bno;
        no_queue = empty;
      }

  pub read-Idle :
      (s : Disk D) (dev n : ℕ) (poll : Bool)
      → IsIdle s
      → (q : Option ℕ) × (bcache_read ide s dev n poll
          ≡ returns (s.head, answered_at s s.head (claimed dev n (node_at s s.head)) q))
  unfolding bcache_read
  read-Idle s dev n poll i =
      let b = s.head in
      let x = claimed dev n (node_at s b) in
      let s1 = put_node s b x in
      let at_x = node_at-put s b x i.within in
      let within : b < length s1.buffer = rw (length-set s.buffer b x) i.within in
      let (q, done) =
        disk_sync_lem ide s1 b poll within i.no_queue
          (ap (λ (y : BNode). y.valid) at_x ∙ sym (ap (λ (y : BNode). y.dirty) at_x)) in
      let sync : Call (ℕ × Disk D) = disk_sync ide s1 b poll >>= λ s2. returns (b, s2) in
      (
        q,
        rw (acquire-Idle s dev n i) (
            if-off (returns (b, s1)) sync (ap (λ (y : BNode). y.valid) at_x)
            ∙ ap (λ c. c >>= λ s2. returns (b, s2)) done
            ∙ ap (λ t. returns (b, t)) (after_sync-put s b x q i.within)),
      )

  pub write-Held :
      (s : Disk D) (b n : ℕ) (bytes : List ℕ) (poll : Bool)
      → IsHeld s b n
      → (q : Option ℕ) × (bcache_write ide
            (put_node s b (record (node_at s b) { cache = bytes }))
            b
            poll
          ≡ returns (answered_at s b (record (node_at s b) { cache = bytes; dirty = true }) q))
  unfolding bcache_write
  write-Held s b n bytes poll h =
      let y : BNode = record (node_at s b) { cache = bytes } in
      let x : BNode = record y { dirty = true } in
      let s1 = put_node s b x in
      let at_x = node_at-put s b x h.within in
      let within : b < length s1.buffer = rw (length-set s.buffer b x) h.within in
      let (q, done) =
        disk_sync_lem ide s1 b poll within h.no_queue
          (ap (λ (z : BNode). z.valid) at_x ∙ h.fresh ∙ sym (ap (λ (z : BNode). z.dirty) at_x)) in
      (
        q,
        ap
              (λ (z : BNode).
                disk_sync ide (put_node (put_node s b y) b (record z { dirty = true })) b poll)
              (node_at-put s b y h.within)
            ∙ ap (λ t. disk_sync ide t b poll) (put_node-twice s b y x)
            ∙ done
            ∙ ap (λ t. returns t) (after_sync-put s b x q h.within),
      )

-- the node behind its release
abbrev pub released : BNode → BNode
released x = record x { nref = 0; valid = false; dirty = false; cache = replicate bsize 0 }

module _ {D : Type 0} where
  pub release-Held :
      (s : Disk D) (b n : ℕ)
      → IsHeld s b n
      → bcache_release s b ≡ put_node s b (released (node_at s b))
  unfolding bcache_release
  release-Held s b n h =
      let x = node_at s b in
      let y : BNode = record x { nref = (x.nref + (2 ^ 32 - 1)) % 2 ^ 32 } in
      let t = put_node s b y in
      let at_y = node_at-put s b y h.within in
      let within : b < length t.buffer = rw (length-set s.buffer b y) h.within in
      let zero_refs : y.nref ≡ 0 = omega (arith, h.once) in
      let last : ((node_at t b).nref == 0) ≡ true =
        ap (λ (z : BNode). z.nref == 0) at_y ∙ rw zero_refs refl in
      if-on (move_front t b) t last
      ∙ move_front-alone t b within h.is_head (ap (λ (z : BNode). z.next) at_y ∙ h.alone)
          (ap (λ (z : BNode). z.prev) at_y ∙ h.alone_back)
      ∙ ap
          (λ (z : BNode).
            put_node t b (record z { valid = false; dirty = false; cache = replicate bsize 0 }))
          at_y
      ∙ put_node-twice s b y _
      ∙ ap
          (λ r.
            put_node s b
              (record x { nref = r; valid = false; dirty = false; cache = replicate bsize 0 }))
          zero_refs

  pub release-IsIdle : (s : Disk D) (b n : ℕ) → IsHeld s b n → IsIdle (bcache_release s b)
  release-IsIdle s b n h =
      let x = released (node_at s b) in
      let at_x : node_at (put_node s b x) s.head ≡ x =
        ap (λ c. node_at (put_node s b x) c) (sym h.is_head) ∙ node_at-put s b x h.within in
      subst IsIdle (sym (release-Held s b n h)) (record {
        within = omega (arith, length-set s.buffer b x, h.within, h.is_head);
        alone = ap (λ (z : BNode). z.next) at_x ∙ h.alone ∙ h.is_head;
        alone_back = ap (λ (z : BNode). z.prev) at_x ∙ h.alone_back ∙ h.is_head;
        free = ap (λ (z : BNode). z.nref) at_x;
        clean = ap (λ (z : BNode). z.dirty) at_x;
        stale = ap (λ (z : BNode). z.valid) at_x;
        no_queue = h.no_queue;
      })

  pub release-drive : (s : Disk D) (b n : ℕ) → IsHeld s b n → (bcache_release s b).drive ≡ s.drive
  release-drive s b n h = ap (λ (t : Disk D). t.drive) (release-Held s b n h)
