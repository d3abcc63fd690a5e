-- ===== src/Disk/Sync/Requests.antt =====
-- kernel/fs/disk.c: what one request does, polled or by interrupt.
use melon_os.Common.{
  ℕ, zero, suc, ◌<◌, ◌≡◌, refl, ap, Bool, true, false, if◌then◌else◌, Option, none, some, List, set,
  length, get_or-set_self, set-set, length-set, ◌==◌, if-on, if-off, sym, Bool-cases, inl, inr, ◌∙◌,
}
use melon_os.Disk.Types.{
  Call, returns, panics, ◌>>=◌, Ide, BNode, Disk, node_at, put_node, zero_node,
}
use melon_os.Disk.Sync.{
  synced, blk2sec, disk_cmd_request, read_block, mark_synced, finish, request_next, dq_dequeue,
  dq_enqueue, disk_handler, wait_synced, sync_now, disk_sync,
}

-- What the drive does: it keeps the bytes of each sector.
pub record IdeLaws {D : Type 0} (ide : Ide D) : Type 0 where
  pub sector : D → ℕ → List ℕ
  pub written :
      (d : D) (bs : List ℕ) (n m : ℕ)
      → sector (ide.ide_write_request d bs n) m ≡ (if m == n then bs else sector d m)
  pub asked : (d : D) (n m : ℕ) → sector (ide.ide_read_request d n) m ≡ sector d m
  pub answered : (d : D) (n : ℕ) → ide.ide_read (ide.ide_read_request d n) ≡ sector d n

pub positive : (n m : ℕ) → m < n → (k : ℕ) × (n ≡ suc k)
positive zero m h = elim h [ ]
positive (suc k) m h = (k, refl)

-- A node that has been synchronized: `cache` is what it then holds.
abbrev pub clean_node : BNode → List ℕ → BNode
clean_node x bytes = record x { cache = bytes; valid = true; dirty = false }

module _ {D : Type 0} where
  pub node_at-put :
      (s : Disk D) (b : ℕ) (x : BNode) → b < length s.buffer → node_at (put_node s b x) b ≡ x
  node_at-put s b x h = get_or-set_self s.buffer b x zero_node h

  pub put_node-twice :
      (s : Disk D) (b : ℕ) (x y : BNode) → put_node (put_node s b x) b y ≡ put_node s b y
  put_node-twice s b x y =
      ap (λ (bs : List BNode). record s { buffer = bs }) (set-set s.buffer b x y)

  mark_synced-put :
      (s : Disk D) (b : ℕ) (x : BNode)
      → b < length s.buffer
      → mark_synced (put_node s b x) b ≡ put_node s b (record x { valid = true; dirty = false })
  mark_synced-put s b x h = rw (get_or-set_self s.buffer b x zero_node h, set-set s.buffer b x) refl

module _ {D : Type 0} (ide : Ide D) where
  -- what the node at the head of the queue holds behind the interrupt
  abbrev pub moved : Disk D → BNode → List ℕ
  moved s x = if x.dirty then x.cache else ide.ide_read s.drive

  pub finish_lem :
      (s : Disk D) (b : ℕ)
      → b < length s.buffer
      → finish ide s b
        ≡ request_next ide (put_node s b (clean_node (node_at s b) (moved s (node_at s b))))
  unfolding finish read_block
  finish_lem s b h = elim (Bool-cases (node_at s b).dirty) [
    | inl on ↦ rw on refl
    | inr off ↦
        let x = node_at s b in
        ap (λ t. request_next ide (mark_synced t b)) (if-off s (read_block ide s b) off)
        ∙ ap (request_next ide) (mark_synced-put s b (record x { cache = ide.ide_read s.drive }) h)
        ∙ ap (λ c. request_next ide (put_node s b (clean_node x c)))
            (sym (if-off x.cache (ide.ide_read s.drive) off))
  ]

  wait_synced-done :
      (n : ℕ) (s : Disk D) (b : ℕ) → synced (node_at s b) ≡ true → wait_synced ide n s b ≡ returns s
  unfolding wait_synced
  wait_synced-done zero s b h = rw h
  wait_synced-done (suc n) s b h = rw h

  -- the drive after the command for the node `x`
  abbrev pub requested : D → BNode → D
  requested d x =
      if x.dirty
      then ide.ide_write_request d x.cache (blk2sec x.blockno)
      else ide.ide_read_request d (blk2sec x.blockno)

  -- the node behind the command
  abbrev pub answer : D → BNode → BNode
  answer d x = clean_node x (if x.dirty then x.cache else ide.ide_read (requested d x))

  -- What `disk_sync` leaves: the node `x` with the link `q`.
  abbrev pub after_sync : Disk D → ℕ → Option ℕ → Disk D
  after_sync s b q = record s {
    buffer = set s.buffer b (record (answer s.drive (node_at s b)) { qnext = q });
    drive = requested s.drive (node_at s b);
  }

  pub command_lem :
      (s : Disk D) (b : ℕ) (x : BNode)
      → node_at s b ≡ x
      → disk_cmd_request ide s b ≡ record s { drive = requested s.drive x }
  unfolding disk_cmd_request
  command_lem s b x e = elim (Bool-cases x.dirty) [
    | inl on ↦ rw (e, on) refl
    | inr off ↦ rw (e, off) refl
  ]

  polled :
      (s : Disk D) (b : ℕ)
      → b < length s.buffer
      → (node_at s b).valid ≡ (node_at s b).dirty
      → sync_now ide s b ≡ after_sync s b (node_at s b).qnext
  unfolding sync_now read_block
  polled s b h same =
      let x = node_at s b in
      let s1 : Disk D = record s { drive = requested s.drive x } in
      let start =
        ap (λ t. mark_synced (if (node_at t b).valid then t else read_block ide t b) b)
          (command_lem s b x refl) in
      start ∙ elim (Bool-cases x.dirty) [
        | inl on ↦
            ap (λ t. mark_synced t b) (if-on s1 (read_block ide s1 b) (same ∙ on))
            ∙ ap (λ c. put_node s1 b (clean_node x c))
                (sym (if-on x.cache (ide.ide_read s1.drive) on))
        | inr off ↦
            ap (λ t. mark_synced t b) (if-off s1 (read_block ide s1 b) (same ∙ off))
            ∙ mark_synced-put s1 b (record x { cache = ide.ide_read s1.drive }) h
            ∙ ap (λ c. put_node s1 b (clean_node x c))
                (sym (if-off x.cache (ide.ide_read s1.drive) off))
      ]

  -- the node in the queue
  abbrev queued : Disk D → ℕ → BNode → Disk D
  queued s b x = record s { buffer = set s.buffer b (record x { qnext = none }); queue = some b }

  interrupt_lem :
      (s : Disk D) (b : ℕ) (x : BNode) (d : D)
      → b < length s.buffer
      → disk_handler ide (record (queued s b x) { drive = d }) ≡ record s {
        buffer =
            set s.buffer b (record (clean_node x (if x.dirty then x.cache else ide.ide_read d)) {
              qnext = none;
            });
        queue = none;
        drive = d;
      }
  unfolding disk_handler dq_dequeue request_next
  interrupt_lem s b x d h =
      let y : BNode = record x { qnext = none } in
      let t : Disk D = record (queued s b x) { drive = d; queue = none } in
      let on : b < length t.buffer = rw (length-set s.buffer b y) h in
      let f = finish_lem t b on in
      ap (λ (z : BNode). finish ide (record t { queue = z.qnext }) b)
        (get_or-set_self s.buffer b y zero_node h)
      ∙ f
      ∙ ap
          (λ (z : BNode). put_node t b (clean_node z (if z.dirty then z.cache else ide.ide_read d)))
          (get_or-set_self s.buffer b y zero_node h)
      ∙ ap (λ (bs : List BNode). record t { buffer = bs })
          (set-set s.buffer b y (clean_node y (if x.dirty then x.cache else ide.ide_read d)))

  enqueue_lem :
      (s : Disk D) (b : ℕ) → s.queue ≡ none → dq_enqueue s b ≡ returns (queued s b (node_at s b))
  unfolding dq_enqueue
  enqueue_lem s b e = rw e refl

  waited :
      (n : ℕ) (s : Disk D) (b : ℕ)
      → b < length s.buffer
      → s.queue ≡ none
      → synced (node_at s b) ≡ false
      → wait_synced ide (suc n) (disk_cmd_request ide (queued s b (node_at s b)) b) b
        ≡ returns (after_sync s b none)
  unfolding wait_synced synced
  waited n s b h empty not_yet =
      let x = node_at s b in
      let y : BNode = record x { qnext = none } in
      let t : Disk D = record (queued s b x) { drive = requested s.drive x } in
      let at_y : node_at t b ≡ y = get_or-set_self s.buffer b y zero_node h in
      let sent = command_lem (queued s b x) b y (get_or-set_self s.buffer b y zero_node h) in
      let served : disk_handler ide t ≡ after_sync s b none =
        interrupt_lem s b x (requested s.drive x) h ∙ rw empty refl in
      let z : BNode = record (answer s.drive x) { qnext = none } in
      let fresh : synced (node_at (after_sync s b none) b) ≡ true =
        ap synced (get_or-set_self s.buffer b z zero_node h) in
      ap (λ u. wait_synced ide (suc n) u b) sent
      ∙ if-off (returns t) (wait_synced ide n (disk_handler ide t) b) (ap synced at_y ∙ not_yet)
      ∙ ap (λ u. wait_synced ide n u b) served
      ∙ wait_synced-done n (after_sync s b none) b fresh

  unsynced : (x : BNode) → x.valid ≡ x.dirty → synced x ≡ false
  unfolding synced
  unsynced x same = elim (Bool-cases x.dirty) [
    | inl on ↦ rw (same, on) refl
    | inr off ↦ rw (same, off) refl
  ]

  -- With nothing queued, `disk_sync` of a node that is to be read, or to be written, returns.
  pub disk_sync_lem :
      (s : Disk D) (b : ℕ) (poll : Bool)
      → b < length s.buffer
      → s.queue ≡ none
      → (node_at s b).valid ≡ (node_at s b).dirty
      → (q : Option ℕ) × (disk_sync ide s b poll ≡ returns (after_sync s b q))
  unfolding disk_sync synced
  disk_sync_lem s b true h empty same = (
    (node_at s b).qnext,
    if-off panics (returns (sync_now ide s b)) (unsynced (node_at s b) same)
        ∙ ap (λ t. returns t) (polled s b h same),
  )
  disk_sync_lem s b false h empty same =
      let (k, size) = positive (length s.buffer) b h in
      let later : Call (Disk D) → Call (Disk D) =
        λ c. c >>= λ s1. wait_synced ide (length s.buffer) (disk_cmd_request ide s1 b) b in
      (
        none,
        if-off panics (later (dq_enqueue s b)) (unsynced (node_at s b) same)
            ∙ ap later (enqueue_lem s b empty)
            ∙ rw size (waited k s b h empty (unsynced (node_at s b) same)),
      )
