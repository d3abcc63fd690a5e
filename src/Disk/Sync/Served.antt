-- ===== src/Disk/Sync/Served.antt =====
-- kernel/fs/disk.c: the interrupts of the drive serve the queue from its head.
use melon_os.Common.{
  ◌==◌, length-append, ℕ, zero, suc, false, Bool, if◌then◌else◌, ◌+◌, ◌<◌, ◌≤◌, ◌≡◌, refl, sym, ap,
  ◌∙◌, subst, ◌++◌, true, if-on, ◌⊎◌, none, some, List, [], ◌∷◌, drop, length, get_or, Bool-cases,
  inl, inr, arith,
}
use melon_os.Disk.Types.{returns, Ide, BNode, Disk, node_at}
use melon_os.Disk.Sync.{blk2sec, synced, disk_cmd_request, dq_enqueue, disk_handler}
use melon_os.Disk.Sync.Requests.{IdeLaws, moved, requested, command_lem}
use melon_os.Disk.Sync.Handled.{IsAsked, IsServed, handler-IsServed}
use melon_os.Disk.Sync.Queue.{NotIn, IsQueue, IsQueue-links, enqueue_last}

-- When the drive interrupts: after a command, until the interrupt has been taken, which leaves the
-- bytes that were read where they are.
pub record Interrupting {D : Type 0} (ide : Ide D) : Type 0 where
  pub pending : D → Bool
  pub taken : D → D
  pub after_write : (d : D) (bs : List ℕ) (n : ℕ) → pending (ide.ide_write_request d bs n) ≡ true
  pub after_read : (d : D) (n : ℕ) → pending (ide.ide_read_request d n) ≡ true
  pub once : (d : D) → pending (taken d) ≡ false
  pub bytes_kept : (d : D) → ide.ide_read (taken d) ≡ ide.ide_read d

-- The next interrupt, if the drive has one: without a command there is none.
abbrev pub interrupt : {D : Type 0} (ide : Ide D) → Interrupting ide → Disk D → Disk D
interrupt ide irq s =
    if irq.pending s.drive then disk_handler ide (record s { drive = irq.taken s.drive }) else s

-- at most so many interrupts
unfoldable pub interrupts : {D : Type 0} (ide : Ide D) → Interrupting ide → ℕ → Disk D → Disk D
interrupts ide irq zero s = s
interrupts ide irq (suc n) s = interrupts ide irq n (interrupt ide irq s)

some-inj : {a b : ℕ} → some a ≡ some b → a ≡ b
some-inj h = cc

module _ {D : Type 0} where
  drained :
      (s : Disk D) (n : ℕ) (bs : List ℕ)
      → length bs ≤ n
      → IsQueue s s.queue (drop n bs)
      → s.queue ≡ none
  drained s zero [] le q = q
  drained s zero (b ∷ bs) le q = absurd (omega arith)
  drained s (suc n) [] le q = q
  drained s (suc n) (b ∷ bs) le q = drained s n bs (omega arith) q

module _ {D : Type 0} (ide : Ide D) (laws : IdeLaws ide) (irq : Interrupting ide) where
  requested-pending : (d : D) (x : BNode) → irq.pending (requested ide d x) ≡ true
  requested-pending d x = elim (Bool-cases x.dirty) [
    | inl on ↦ rw on (irq.after_write d x.cache (blk2sec x.blockno))
    | inr off ↦ rw off (irq.after_read d (blk2sec x.blockno))
  ]

  -- behind the command for a node its bytes are those of its sector
  requested-stored :
      (d : D) (x : BNode)
      → (if x.dirty then x.cache else ide.ide_read (requested ide d x))
        ≡ laws.sector (requested ide d x) (blk2sec x.blockno)
  requested-stored d x =
      let n = blk2sec x.blockno in
      elim (Bool-cases x.dirty) [
        | inl on ↦
            let own : (n == n) ≡ true = ground arith in
            rw on (sym (laws.written d x.cache n n ∙ if-on x.cache (laws.sector d n) own))
        | inr off ↦ rw off (laws.answered d n ∙ sym (laws.asked d n n))
      ]

  interrupt-IsServed :
      (s : Disk D) (b : ℕ)
      → s.queue ≡ some b
      → b < length s.buffer
      → irq.pending s.drive ≡ true
      → IsServed ide s (interrupt ide irq s) b (moved ide s (node_at s b))
        × IsAsked ide (interrupt ide irq s)
  interrupt-IsServed s b e h on =
      let s1 : Disk D = record s { drive = irq.taken s.drive } in
      let x = node_at s b in
      let (v, asked) = handler-IsServed ide s1 b e h in
      let same : interrupt ide irq s ≡ disk_handler ide s1 = if-on (disk_handler ide s1) s on in
      (
        subst (λ t. IsServed ide s t b (moved ide s x)) (sym same)
            (record {
              next_queue = v.next_queue;
              same_length = v.same_length;
              links = v.links;
              served = v.served;
              cached =
                  v.cached
                  ∙ ap (λ bytes. if x.dirty then x.cache else bytes) (irq.bytes_kept s.drive);
            }),
        subst (IsAsked ide) (sym same) asked,
      )

  -- the bytes that the head holds behind the interrupt
  head-stored :
      (s : Disk D) (b : ℕ)
      → s.queue ≡ some b
      → IsAsked ide s
      → moved ide s (node_at s b) ≡ laws.sector s.drive (blk2sec (node_at s b).blockno)
  head-stored s b e asked =
      let x = node_at s b in
      let (d, last) = asked b e in
      ap (λ d1. if x.dirty then x.cache else ide.ide_read d1) last
      ∙ requested-stored d x
      ∙ ap (λ d1. laws.sector d1 (blk2sec x.blockno)) (sym last)

  tail-IsQueue :
      (s t : Disk D) (b : ℕ) (c : List ℕ) (bs : List ℕ)
      → IsServed ide s t b c
      → IsQueue s (node_at s b).qnext bs
      → IsQueue t t.queue bs
  tail-IsQueue s t b c bs v rest =
      subst (λ p. IsQueue t p bs) (sym v.next_queue)
        (IsQueue-links s t (node_at s b).qnext bs v.same_length v.links rest)

  next-pending :
      (s : Disk D) (bs : List ℕ)
      → 0 < length bs
      → IsQueue s s.queue bs
      → IsAsked ide s
      → irq.pending s.drive ≡ true
  next-pending s [] lt q asked = absurd (omega arith)
  next-pending s (b ∷ bs) lt (e, h, rest) asked =
      let (d, last) = asked b e in ap irq.pending last ∙ requested-pending d (node_at s b)

  -- What the interrupt number `i` does for the node `b`.
  abbrev Served : Disk D → ℕ → ℕ → Type 0
  Served s i b = synced (node_at (interrupts ide irq (suc i) s) b) ≡ true

  -- The node then has the bytes of its sector.
  abbrev Stored : Disk D → ℕ → ℕ → Type 0
  Stored s i b =
      (node_at (interrupts ide irq (suc i) s) b).cache
      ≡ laws.sector (interrupts ide irq i s).drive
          (blk2sec (node_at (interrupts ide irq i s) b).blockno)

  interrupts_in_order :
      (i : ℕ) (s : Disk D) (bs : List ℕ)
      → IsQueue s s.queue bs
      → irq.pending s.drive ≡ true
      → i < length bs
      → IsQueue
          (interrupts ide irq (suc i) s)
          (interrupts ide irq (suc i) s).queue
          (drop (suc i) bs)
        × Served s i (get_or bs i 0)
        × ((0 < i) ⊎ IsAsked ide s → Stored s i (get_or bs i 0))
  unfolding interrupts
  interrupts_in_order i s [] q on lt = absurd (omega arith)
  interrupts_in_order zero s (b ∷ bs) (e, h, rest) on lt =
      let (v, asked) = interrupt-IsServed s b e h on in
      (
        tail-IsQueue s (interrupt ide irq s) b (moved ide s (node_at s b)) bs v rest,
        v.served,
        elim [ inl z ↦ absurd (omega arith) | inr was ↦ v.cached ∙ head-stored s b e was ],
      )
  interrupts_in_order (suc i) s (b ∷ bs) (e, h, rest) on lt =
      let (v, asked) = interrupt-IsServed s b e h on in
      let t = interrupt ide irq s in
      let left = tail-IsQueue s t b (moved ide s (node_at s b)) bs v rest in
      let more = next-pending t bs (omega arith) left asked in
      let (q, done, stored) = interrupts_in_order i t bs left more (omega arith) in
      (q, done, λ w. stored (inr asked))

  -- A node is put into a well-formed queue that does not hold it, and the command for it sent, as
  -- `disk_sync` does. Each interrupt, which comes only after a command, synchronizes the next node of
  -- the queue, the new one last, and behind one interrupt for each the queue is empty. The nodes
  -- behind the first then hold the bytes of their sectors, whether they were read or written, and so
  -- does the new one if it was alone.
  pub enqueue-served :
      (s : Disk D) (bs : List ℕ) (b : ℕ)
      → IsQueue s s.queue bs
      → NotIn b bs
      → length bs ≤ length s.buffer
      → b < length s.buffer
      → (t : Disk D) × (dq_enqueue s b ≡ returns t)
        × (let u = disk_cmd_request ide t b in
            let order = bs ++ b ∷ [] in
            ((interrupts ide irq (suc (length bs)) u).queue ≡ none)
            × ((i : ℕ)
                → i ≤ length bs
                → synced (node_at (interrupts ide irq (suc i) u) (get_or order i 0)) ≡ true)
            × ((i : ℕ)
                → i ≤ length bs
                → (0 < i) ⊎ (bs ≡ [])
                → (node_at (interrupts ide irq (suc i) u) (get_or order i 0)).cache
                  ≡ laws.sector
                      (interrupts ide irq i u).drive
                      (blk2sec (node_at (interrupts ide irq i u) (get_or order i 0)).blockno)))
  enqueue-served s bs b q fresh le h =
      let (t, eq, q2) = enqueue_last s bs b q fresh le h in
      let order = bs ++ b ∷ [] in
      let size : length order ≡ length bs + 1 = length-append bs (b ∷ []) in
      let d = requested ide t.drive (node_at t b) in
      let sent : disk_cmd_request ide t b ≡ record t { drive = d } =
        command_lem ide t b (node_at t b) refl in
      let u : Disk D = record t { drive = d } in
      let all = λ (i : ℕ) (lt : i < length order).
        interrupts_in_order i u order q2 (requested-pending t.drive (node_at t b)) lt in
      let alone : bs ≡ [] → IsAsked ide u = λ nil i e. (
        t.drive,
        ap (λ j. requested ide t.drive (node_at t j))
            (only t b (subst (λ xs. IsQueue t t.queue (xs ++ b ∷ [])) nil q2) i e),
      ) in
      (
        t,
        eq,
        subst
            (λ w.
              ((interrupts ide irq (suc (length bs)) w).queue ≡ none)
              × ((i : ℕ) → i ≤ length bs → Served w i (get_or order i 0))
              × ((i : ℕ) → i ≤ length bs → (0 < i) ⊎ (bs ≡ []) → Stored w i (get_or order i 0)))
            (sym sent)
            (
              drained (interrupts ide irq (suc (length bs)) u) (suc (length bs)) order
                  (omega (arith, size)) (all (length bs) (omega (arith, size))).0,
              (λ i le2. (all i (omega (arith, size, le2))).1),
              (λ i le2 late.
                  (all i (omega (arith, size, le2))).2
                    (elim late [ inl pos1 ↦ inl pos1 | inr nil ↦ inr (alone nil) ])),
            ),
      )
    where
      only : (t : Disk D) (b : ℕ) → IsQueue t t.queue (b ∷ []) → (i : ℕ) → t.queue ≡ some i → b ≡ i
      only t b (e, _, _) i e2 = some-inj (sym e ∙ e2)
