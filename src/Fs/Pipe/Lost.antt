-- ===== src/Fs/Pipe/Lost.antt =====
-- kernel/pipe.c: those who sleep on a pipe.
use melon_os.Common.{
  if-off, ℕ, ◌-◌, ◌<◌, ◌≡◌, subst, append-nil, sym, ◌∙◌, ap, inl, inr, Bool, true, false, ◌&&◌,
  if◌then◌else◌, List, [], ◌++◌, length, take, arith,
}
use melon_os.Process.Types.{Chan, chan_eq}
use melon_os.Process.Table.{wakeup_unlocked}
use melon_os.Process.Life.Missed.{sleeps_on, wakeup-asleep, wakeup-Quiet, wakeup-length}
use melon_os.Fs.Pipe.{
  pipesz, Pipe, PipeState, is_empty, is_full, Outcome, put_to_sleep, killed_at, read_round,
  write_round, pipe_close,
}
use melon_os.Fs.Pipe.Queue.{held, contents, IsRing, length-bytes_from, held-full, full-held}
use melon_os.Fs.Pipe.Wakeups.{asleep-on, both, first_of, neither, read_round_lem, write_round_lem}

module _ (nread nwritten : Chan) where
  -- Who sleeps on a pipe waits for something that has not come: a reader finds the pipe empty and
  -- its write end open, a writer finds it full and its read end open.
  pub record NoLost (s : PipeState) : Type 0 where
    pub ring : IsRing s.pipe
    pub readers :
        (i : ℕ) → sleeps_on s.table i nread ≡ true → (is_empty s.pipe && s.pipe.iswriteopen) ≡ true
    pub writers :
        (i : ℕ) → sleeps_on s.table i nwritten ≡ true → (is_full s.pipe && s.pipe.isreadopen) ≡ true

  -- the state after a step
  abbrev pub then_state : Outcome × PipeState → PipeState
  then_state (o, s) = s

  either-NoLost :
      (b : Bool) (x y : Outcome × PipeState)
      → NoLost (then_state x)
      → NoLost (then_state y)
      → NoLost (then_state (if b then x else y))
  either-NoLost true x y hx hy = hx
  either-NoLost false x y hx hy = hy

  module _ (apart : chan_eq nread nwritten ≡ false) (apart1 : chan_eq nwritten nread ≡ false) where
    pub read_round-NoLost :
        (s : PipeState) (me n : ℕ)
        → me < length s.table
        → NoLost s
        → NoLost (then_state (read_round nread nwritten s me n))
    read_round-NoLost s me n lt safe = elim (read_round_lem nread nwritten s me n safe.ring) [
      | inl (stay, eq) ↦ rw eq (
          either-NoLost (killed_at s.table me) (Outcome.failed, s)
            (Outcome.asleep [], record s { table = put_to_sleep s.table me nread }) safe
            record {
              ring = safe.ring;
              readers = λ i h. stay;
              writers = λ i h.
                  safe.writers i (ground (arith, h, asleep-on s.table me i nread nwritten lt));
            })
      | inr (go, q, ring, left, eq) ↦ rw eq record {
        ring = ring;
        readers = λ i h.
            let (before, _) = wakeup-asleep s.table nwritten nread i h in
            cc (safe.readers i before, go);
        writers = λ i h. cc (wakeup-Quiet s.table nwritten i, h);
      }
    ]

    -- a pipe that is full takes nothing more
    still-full :
        (p q : Pipe) (bs : List ℕ)
        → IsRing p
        → IsRing q
        → is_full p ≡ true
        → contents q ≡ contents p ++ take (pipesz - held p) bs
        → is_full q ≡ true
    still-full p q bs ring ring1 full eq =
        let held_p : held p ≡ pipesz = full-held p ring full in
        let taken : take (pipesz - held p) bs ≡ [] =
          ap (λ m. take m bs) (let e : pipesz - held p ≡ 0 = omega (arith, held_p) in e) in
        let same : contents q ≡ contents p =
          eq ∙ ap (λ xs. contents p ++ xs) taken ∙ append-nil (contents p) in
        let count : held q ≡ held p =
          sym (length-bytes_from q.bytes (held q) q.nread)
          ∙ ap length same
          ∙ length-bytes_from p.bytes (held p) p.nread in
        held-full q ring1 (count ∙ held_p)

    pub write_round-NoLost :
        (s : PipeState) (me : ℕ) (bs : List ℕ)
        → me < length s.table
        → s.pipe.isreadopen ≡ true
        → killed_at s.table me ≡ false
        → NoLost s
        → NoLost (then_state (write_round nread nwritten s me bs))
    write_round-NoLost s me bs lt open1 alive safe =
        let (q, ring1, same_end, queue, ends) = write_round_lem nread nwritten s me bs safe.ring in
        let open_q : q.isreadopen ≡ true = same_end ∙ open1 in
        elim ends [
          | inl (left, eq) ↦ rw eq record {
            ring = ring1;
            readers = λ i h. cc (wakeup-Quiet s.table nread i, h);
            writers = λ i h.
                let (before, _) = wakeup-asleep s.table nread nwritten i h in
                let full : is_full s.pipe ≡ true =
                  first_of (is_full s.pipe) s.pipe.isreadopen (safe.writers i before) in
                both (still-full s.pipe q bs safe.ring ring1 full queue) open_q;
          }
          | inr (more, full, eq) ↦ rw (eq ∙ if-off _ _ (neither open1 alive)) record {
            ring = ring1;
            readers = λ i h.
                let calm : sleeps_on (wakeup_unlocked s.table nread) i nread ≡ false =
                  wakeup-Quiet s.table nread i in
                ground (
                  arith,
                  h,
                  calm,
                  asleep-on (wakeup_unlocked s.table nread) me i nwritten nread
                      (subst (λ n. me < n) (sym (wakeup-length s.table nread)) lt),
                );
            writers = λ i h. both (held-full q ring1 full) open_q;
          }
        ]

    pub pipe_close-NoLost :
        (s : PipeState) (close_write_end : Bool)
        → NoLost s
        → NoLost (pipe_close nread nwritten s close_write_end).1
    unfolding pipe_close
    pipe_close-NoLost s true safe = record {
      ring = record {
        size = safe.ring.size;
        read_bound = safe.ring.read_bound;
        written_bound = safe.ring.written_bound;
        capacity = safe.ring.capacity;
      };
      readers = λ i h. cc (wakeup-Quiet s.table nread i, h);
      writers = λ i h.
          let (before, _) = wakeup-asleep s.table nread nwritten i h in safe.writers i before;
    }
    pipe_close-NoLost s false safe = record {
      ring = record {
        size = safe.ring.size;
        read_bound = safe.ring.read_bound;
        written_bound = safe.ring.written_bound;
        capacity = safe.ring.capacity;
      };
      readers = λ i h.
          let (before, _) = wakeup-asleep s.table nwritten nread i h in safe.readers i before;
      writers = λ i h. cc (wakeup-Quiet s.table nwritten i, h);
    }
