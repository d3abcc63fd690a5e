-- ===== src/Disk/Sync/Handled.antt =====
-- kernel/fs/disk.c: what `disk_handler` does to a queue with a head.
use melon_os.Common.{
  ℕ, Option, ◌<◌, ◌≡◌, Option-cases, refl, sym, ap, ◌∙◌, subst, true, if-on, if-off, ◌⊎◌, none,
  some, List, set, length, get_or, get_or-set, length-set, get_or-set_self, ◌==◌, ==_iff,
  Bool-cases, inl, inr,
}
use melon_os.Disk.Types.{Ide, BNode, Disk, node_at, put_node, zero_node}
use melon_os.Disk.Sync.{synced, disk_cmd_request, request_next, dq_dequeue, disk_handler}
use melon_os.Disk.Sync.Requests.{clean_node, moved, finish_lem, requested, command_lem}

module _ {D : Type 0} (ide : Ide D) where
  request_next-buffer : (s : Disk D) → (request_next ide s).buffer ≡ s.buffer
  unfolding request_next disk_cmd_request
  request_next-buffer s = elim (Option-cases s.queue) [
    | inl e ↦ rw e refl
    | inr (h, e) ↦
        rw e (elim (Bool-cases (node_at s h).dirty) [ inl on ↦ rw on refl | inr off ↦ rw off refl ])
  ]

  request_next-queue : (s : Disk D) → (request_next ide s).queue ≡ s.queue
  unfolding request_next disk_cmd_request
  request_next-queue s = elim (Option-cases s.queue) [
    | inl e ↦ rw e refl
    | inr (h, e) ↦
        rw e (elim (Bool-cases (node_at s h).dirty) [ inl on ↦ rw on refl | inr off ↦ rw off refl ])
  ]

  -- The last command was the one for the head of the queue.
  abbrev pub IsAsked : Disk D → Type 0
  IsAsked s = (h : ℕ) → s.queue ≡ some h → (d : D) × (s.drive ≡ requested ide d (node_at s h))

  request_next-IsAsked : (s : Disk D) → IsAsked (request_next ide s)
  unfolding request_next
  request_next-IsAsked s h e =
      let head : s.queue ≡ some h = sym (request_next-queue s) ∙ e in
      let sent : request_next ide s ≡ record s { drive = requested ide s.drive (node_at s h) } =
        ap (λ (q : Option ℕ). elim q [ none ↦ s | some i ↦ disk_cmd_request ide s i ]) head
        ∙ command_lem ide s h (node_at s h) refl in
      (
        s.drive,
        ap (λ (t : Disk D). t.drive) sent
            ∙ ap (λ (t : Disk D). requested ide s.drive (node_at t h)) (sym sent),
      )

  -- What an interrupt does to a queue with a head: the head is synchronized, with the bytes `c`, and
  -- leaves.
  pub record IsServed (s t : Disk D) (b : ℕ) (c : List ℕ) : Type 0 where
    pub next_queue : t.queue ≡ (node_at s b).qnext
    pub same_length : length t.buffer ≡ length s.buffer
    pub links : (i : ℕ) → (node_at t i).qnext ≡ (node_at s i).qnext
    pub served : synced (node_at t b) ≡ true
    pub cached : (node_at t b).cache ≡ c

  set-IsServed :
      (s t : Disk D) (b : ℕ) (c : List ℕ)
      → b < length s.buffer
      → t.queue ≡ (node_at s b).qnext
      → t.buffer ≡ set s.buffer b (clean_node (node_at s b) c)
      → IsServed s t b c
  unfolding synced
  set-IsServed s t b c h q e =
      let x = clean_node (node_at s b) c in
      let at : (i : ℕ) → ((i ≡ b) × (node_at t i ≡ x)) ⊎ (node_at t i ≡ node_at s i) = λ i.
        let e_i = ap (λ bs. get_or bs i zero_node) e ∙ get_or-set s.buffer b i x zero_node h in
        elim (Bool-cases (i == b)) [
          | inl on ↦ inl ((==_iff i b).0 on, e_i ∙ if-on x (node_at s i) on)
          | inr off ↦ inr (e_i ∙ if-off x (node_at s i) off)
        ] in
      let here : node_at t b ≡ x =
        ap (λ bs. get_or bs b zero_node) e ∙ get_or-set_self s.buffer b x zero_node h in
      record {
        next_queue = q;
        same_length = ap length e ∙ length-set s.buffer b x;
        links = λ i. elim (at i) [
          | inl (same, n) ↦ ap (λ (y : BNode). y.qnext) n ∙ ap (λ j. (node_at s j).qnext) (sym same)
          | inr n ↦ ap (λ (y : BNode). y.qnext) n
        ];
        served = rw here refl;
        cached = ap (λ (y : BNode). y.cache) here;
      }

  pub handler-IsServed :
      (s : Disk D) (b : ℕ)
      → s.queue ≡ some b
      → b < length s.buffer
      → IsServed s (disk_handler ide s) b (moved ide s (node_at s b)) × IsAsked (disk_handler ide s)
  unfolding disk_handler dq_dequeue
  handler-IsServed s b e h =
      let s1 : Disk D = record s { queue = (node_at s b).qnext } in
      let x = node_at s b in
      let f = finish_lem ide s1 b h in
      let u = put_node s1 b (clean_node x (moved ide s1 x)) in
      let same : disk_handler ide s ≡ request_next ide u = rw e f in
      (
        set-IsServed s (disk_handler ide s) b (moved ide s1 x) h
            (ap (λ (t : Disk D). t.queue) same ∙ request_next-queue u)
            (ap (λ (t : Disk D). t.buffer) same ∙ request_next-buffer u),
        subst IsAsked (sym same) (request_next-IsAsked u),
      )
