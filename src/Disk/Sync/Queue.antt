-- ===== src/Disk/Sync/Queue.antt =====
-- kernel/fs/disk.c: the chain of nodes that is the queue.
use melon_os.Common.{
  ℕ, zero, suc, ◌<◌, ◌≤◌, ◌≡◌, ◌≢◌, refl, sym, ap, ◌∙◌, subst, ◌++◌, Option, none, some, List, [],
  ◌∷◌, length, length-set, get_or-set_self, get_or-set_ne, arith,
}
use melon_os.Disk.Types.{returns, ◌>>=◌, BNode, Disk, node_at, put_node, zero_node}
use melon_os.Disk.Sync.{dq_enqueue, dq_last, last_loop}

abbrev pub NotIn : ℕ → List ℕ → Type 0
NotIn b [] = Unit {0}
NotIn b (c ∷ cs) = (b ≢ c) × NotIn b cs

some-none : (d : ℕ) → some d ≢ none
some-none d = λ e. cc

module _ {D : Type 0} where
  -- The queue that starts with the pointer `q` consists of these nodes.
  abbrev pub IsQueue : Disk D → Option ℕ → List ℕ → Type 0
  IsQueue s q [] = q ≡ none
  IsQueue s q (b ∷ bs) = (q ≡ some b) × (b < length s.buffer) × IsQueue s (node_at s b).qnext bs

  pub IsQueue-links :
      (s t : Disk D) (q : Option ℕ) (bs : List ℕ)
      → length t.buffer ≡ length s.buffer
      → ((i : ℕ) → (node_at t i).qnext ≡ (node_at s i).qnext)
      → IsQueue s q bs
      → IsQueue t q bs
  IsQueue-links s t q [] l e h = h
  IsQueue-links s t q (b ∷ bs) l e (h, lt, rest) = (
    h,
    omega (arith, l, lt),
    subst (λ p. IsQueue t p bs) (sym (e b)) (IsQueue-links s t (node_at s b).qnext bs l e rest),
  )

  IsQueue-apart :
      (s : Disk D) (b : ℕ) (x : BNode) (q : Option ℕ) (bs : List ℕ)
      → NotIn b bs
      → IsQueue s q bs
      → IsQueue (put_node s b x) q bs
  IsQueue-apart s b x q [] ne h = h
  IsQueue-apart s b x q (c ∷ bs) (ne, fresh) (e, h, rest) =
      let keep = get_or-set_ne s.buffer b c x zero_node ne in
      (
        e,
        omega (arith, length-set s.buffer b x, h),
        subst (λ p. IsQueue (put_node s b x) p bs) (sym (ap (λ (y : BNode). y.qnext) keep))
            (IsQueue-apart s b x (node_at s c).qnext bs fresh rest),
      )

  -- The last node of a queue, and what a link from it to `b` makes of the queue.
  record IsLast (s : Disk D) (c : ℕ) (bs : List ℕ) (b l : ℕ) : Type 0 where
    ends : (n : ℕ) → length bs < n → last_loop n s c ≡ returns l
    no_next : (node_at s l).qnext ≡ none
    within : l < length s.buffer
    other : b ≢ l
    longer :
        (t : Disk D)
        → length t.buffer ≡ length s.buffer
        → (node_at t l).qnext ≡ some b
        → (node_at t b).qnext ≡ none
        → b < length s.buffer
        → ((i : ℕ) → i ≢ l → node_at t i ≡ node_at s i)
        → IsQueue t (some c) (c ∷ bs ++ b ∷ [])

  last_lem :
      (s : Disk D) (c : ℕ) (bs : List ℕ) (b : ℕ)
      → IsQueue s (some c) (c ∷ bs)
      → NotIn b (c ∷ bs)
      → (l : ℕ) × IsLast s c bs b l
  unfolding last_loop
  last_lem s c [] b (e, h, rest) (ne, nil) = (
    c,
    record {
      ends = elim [ zero ↦ λ lt. absurd (omega arith) | suc n ↦ λ lt. rw (rest, last_loop) refl ];
      no_next = rest;
      within = h;
      other = ne;
      longer = λ t len to_b b_none hb same.
          (refl, omega (arith, len, h), (to_b, omega (arith, len, hb), b_none));
    },
  )
  last_lem s c (d ∷ bs) b (e, h, (to_d, hd, rest)) (ne, fresh) =
      let (l, r) = last_lem s d bs b (refl, hd, rest) fresh in
      (
        l,
        record {
          ends = elim [
            | zero ↦ λ lt. absurd (omega arith)
            | suc n ↦ λ lt. rw (to_d, last_loop) (r.ends n (omega arith))
          ];
          no_next = r.no_next;
          within = r.within;
          other = r.other;
          longer = λ t len to_b b_none hb same.
              let c_ne : c ≢ l =
                λ q. some-none d (sym to_d ∙ ap (λ j. (node_at s j).qnext) q ∙ r.no_next) in
              let to_d2 : (node_at t c).qnext ≡ some d =
                ap (λ (y : BNode). y.qnext) (same c c_ne) ∙ to_d in
              (
                refl,
                omega (arith, len, h),
                subst (λ q. IsQueue t q (d ∷ bs ++ b ∷ [])) (sym to_d2)
                    (r.longer t len to_b b_none hb same),
              );
        },
      )

  abbrev link_last : Disk D → ℕ → ℕ → Disk D
  link_last s b last = put_node s last (record (node_at s last) { qnext = some b })

  enqueue_some :
      (s : Disk D) (b c : ℕ)
      → s.queue ≡ some c
      → dq_enqueue s b ≡ (
          dq_last (put_node s b (record (node_at s b) { qnext = none })) c >>= λ last.
          returns (link_last (put_node s b (record (node_at s b) { qnext = none })) b last))
  unfolding dq_enqueue
  enqueue_some s b c e = rw e refl

  -- `dq_enqueue` puts a node that is not there at the end of the queue.
  pub enqueue_last :
      (s : Disk D) (bs : List ℕ) (b : ℕ)
      → IsQueue s s.queue bs
      → NotIn b bs
      → length bs ≤ length s.buffer
      → b < length s.buffer
      → (t : Disk D) × (dq_enqueue s b ≡ returns t) × IsQueue t t.queue (bs ++ b ∷ [])
  unfolding dq_enqueue dq_last
  enqueue_last s [] b q fresh le h =
      let x : BNode = record (node_at s b) { qnext = none } in
      (
        record (put_node s b x) { queue = some b },
        rw q refl,
        (
          refl,
          omega (arith, length-set s.buffer b x, h),
          ap (λ (y : BNode). y.qnext) (get_or-set_self s.buffer b x zero_node h),
        ),
      )
  enqueue_last s (c ∷ bs) b (e, hc, rest) (ne, fresh) le h =
      let x : BNode = record (node_at s b) { qnext = none } in
      let s1 = put_node s b x in
      let len : length s1.buffer ≡ length s.buffer = length-set s.buffer b x in
      let (e1, hc1, rest1) = IsQueue-apart s b x (some c) (c ∷ bs) (ne, fresh) (refl, hc, rest) in
      let (l, r) = last_lem s1 c bs b (refl, hc1, rest1) (ne, fresh) in
      let y : BNode = record (node_at s1 l) { qnext = some b } in
      let t = put_node s1 l y in
      let last_eq : dq_last s1 c ≡ returns l = r.ends (length s1.buffer) (omega (arith, len, le)) in
      let at_l : node_at t l ≡ y = get_or-set_self s1.buffer l y zero_node r.within in
      let at_b : node_at t b ≡ x =
        get_or-set_ne s1.buffer l b y zero_node (λ q. r.other (sym q))
        ∙ get_or-set_self s.buffer b x zero_node h in
      (
        t,
        enqueue_some s b c e ∙ ap (λ m. m >>= λ last. returns (link_last s1 b last)) last_eq,
        subst (λ q. IsQueue t q (c ∷ bs ++ b ∷ [])) (sym e)
            (r.longer t (length-set s1.buffer l y) (ap (λ (z : BNode). z.qnext) at_l)
              (ap (λ (z : BNode). z.qnext) at_b) (omega (arith, len, h))
              (λ i ne2. get_or-set_ne s1.buffer l i y zero_node (λ q. ne2 (sym q)))),
      )
