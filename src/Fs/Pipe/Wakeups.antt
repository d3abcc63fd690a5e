-- ===== src/Fs/Pipe/Wakeups.antt =====
-- kernel/pipe.c: what a step of a call does to the queue and to those who sleep on the pipe.
use melon_os.Common.{
  ℕ, ◌-◌, ◌<◌, ◌≡◌, ◌≢◌, ◌⊎◌, subst, refl, ap, inl, inr, Bool, true, false, not, ◌&&◌, ◌||◌, ◌==◌,
  if◌then◌else◌, List, [], ◌∷◌, ◌++◌, length, take, drop, get_or-set, Bool-cases, arith,
}
use melon_os.Process.Types.{Process, Chan, chan_eq, sleeping, zero_process}
use melon_os.Process.Table.{wakeup_unlocked}
use melon_os.Process.Life.Missed.{at, sleeps_on}
use melon_os.Fs.Pipe.{
  pipesz, Pipe, PipeState, is_empty, is_full, read_loop, push_byte, write_loop, Outcome,
  put_to_sleep, killed_at, read_round, write_round, write_end,
}
use melon_os.Fs.Pipe.Queue.{held, contents, IsRing, write_loop_lem, read_loop_lem}

-- the loops leave the ends as they are
write_loop-open :
    (bs : List ℕ) (p : Pipe) → (let (rest, q) = write_loop bs p in q.isreadopen ≡ p.isreadopen)
unfolding write_loop
write_loop-open [] p = refl
write_loop-open (b ∷ bs) p = elim (Bool-cases (is_full p)) [
  | inl full ↦ rw full refl
  | inr free ↦ rw free (write_loop-open bs (push_byte p b))
]

-- A full pipe takes nothing.
write_loop-full : (bs : List ℕ) (p : Pipe) → is_full p ≡ true → write_loop bs p ≡ (bs, p)
unfolding write_loop
write_loop-full [] p full = refl
write_loop-full (b ∷ bs) p full = rw full refl

pub asleep-on :
    (t : List Process) (me i : ℕ) (c d : Chan)
    → me < length t
    → sleeps_on (put_to_sleep t me c) i d ≡ (if i == me then chan_eq c d else sleeps_on t i d)
asleep-on t me i c d lt =
    rw (get_or-set t me i (record (at t me) { chan = c; state = sleeping }) zero_process lt) ground
      arith

pub both : {a b : Bool} → a ≡ true → b ≡ true → (a && b) ≡ true
both h k = ground arith

pub first_of : (a b : Bool) → (a && b) ≡ true → a ≡ true
first_of a b h = ground arith

pub neither : {a b : Bool} → a ≡ true → b ≡ false → (not a || b) ≡ false
neither h k = ground arith

module _ (nread nwritten : Chan) where
  -- A step of `pipe_read` on an empty pipe with an open write end sleeps, or fails for a process that
  -- was killed; else it takes the oldest bytes and wakes the writers.
  pub read_round_lem :
      (s : PipeState) (me n : ℕ)
      → IsRing s.pipe
      → (((is_empty s.pipe && s.pipe.iswriteopen) ≡ true)
          × (read_round nread nwritten s me n ≡ (
              if killed_at s.table me
              then (Outcome.failed, s)
              else (Outcome.asleep [], record s { table = put_to_sleep s.table me nread }))))
        ⊎ (((is_empty s.pipe && s.pipe.iswriteopen) ≡ false)
            × (q : Pipe) × IsRing q
            × (contents q ≡ drop n (contents s.pipe))
            × (read_round nread nwritten s me n ≡ (
              Outcome.read (take n (contents s.pipe)),
              record { pipe = q; table = wakeup_unlocked s.table nwritten },
            )))
  unfolding read_round
  read_round_lem s me n ring = elim (Bool-cases (is_empty s.pipe && s.pipe.iswriteopen)) [
    | inl stay ↦ inl (stay, rw stay refl)
    | inr go ↦
        let (ring1, taken, left) = read_loop_lem n s.pipe ring in
        inr (
          go,
          (read_loop n s.pipe).1,
          ring1,
          left,
          rw go (
              ap
                (λ bs. (
                  Outcome.read bs,
                  record {
                    pipe = (read_loop n s.pipe).1;
                    table = wakeup_unlocked s.table nwritten;
                  },
                ))
                taken),
        )
  ]

  -- how the loop of `pipe_write` ends with `left` to do
  abbrev pub WriteEnds : PipeState → ℕ → List ℕ → Pipe → Outcome × PipeState → Type 0
  WriteEnds s me left q r =
      ((left ≡ [])
        × (r ≡ (Outcome.wrote, record { pipe = q; table = wakeup_unlocked s.table nread })))
      ⊎ ((left ≢ [])
          × (held q ≡ pipesz)
          × (r ≡ (
              if not s.pipe.isreadopen || killed_at s.table me
              then (Outcome.failed, record s { pipe = q })
              else (
                Outcome.asleep left,
                record {
                  pipe = q;
                  table = put_to_sleep (wakeup_unlocked s.table nread) me nwritten;
                },
              ))))

  write_end-WriteEnds :
      (s : PipeState) (me : ℕ) (left : List ℕ) (q : Pipe)
      → ((held q ≡ pipesz) ⊎ (left ≡ []))
      → q.isreadopen ≡ s.pipe.isreadopen
      → WriteEnds s me left q (write_end nread nwritten s me (left, q))
  write_end-WriteEnds s me [] q end same = inl (refl, refl)
  write_end-WriteEnds s me (b ∷ bs) q end same =
      inr ((λ e. cc), (elim end [ inl full ↦ full | inr nil ↦ cc ]), rw same refl)

  -- A step of `pipe_write` adds what there is room for. With nothing left it wakes the readers and is
  -- done. Else the pipe is full: it fails, without waking anybody, if the read end is closed or the
  -- process was killed, and wakes the readers and sleeps if not.
  pub write_round_lem :
      (s : PipeState) (me : ℕ) (bs : List ℕ)
      → IsRing s.pipe
      → (q : Pipe) × IsRing q
        × (q.isreadopen ≡ s.pipe.isreadopen)
        × (contents q ≡ contents s.pipe ++ take (pipesz - held s.pipe) bs)
        × WriteEnds s me (drop (pipesz - held s.pipe) bs) q (write_round nread nwritten s me bs)
  unfolding write_round
  write_round_lem s me bs ring =
      let (ring1, queue, left, end) = write_loop_lem bs s.pipe ring in
      (
        (write_loop bs s.pipe).1,
        ring1,
        write_loop-open bs s.pipe,
        queue,
        subst (λ l. WriteEnds s me l (write_loop bs s.pipe).1 (write_round nread nwritten s me bs))
            left
            (write_end-WriteEnds s me (write_loop bs s.pipe).0 (write_loop bs s.pipe).1 end
              (write_loop-open bs s.pipe)),
      )
