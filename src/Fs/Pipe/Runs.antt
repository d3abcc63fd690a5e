-- ===== src/Fs/Pipe/Runs.antt =====
-- kernel/pipe.c: the calls on a pipe as steps, in any order.
use melon_os.Common.{
  ℕ, ◌-◌, ◌<◌, ◌≡◌, refl, sym, ◌∙◌, ap, subst, inl, inr, Bool, true, false, not, ◌||◌,
  if◌then◌else◌, List, [], ◌++◌, length, take, append-nil, append_assoc, take-append-drop,
}
use melon_os.Process.Types.{Process, Chan, chan_eq}
use melon_os.Process.Life.Missed.{sleeps_on}
use melon_os.Fs.Pipe.{pipesz, PipeState, Outcome, killed_at, read_round, write_round, pipe_close}
use melon_os.Fs.Pipe.Queue.{held, contents, IsRing}
use melon_os.Fs.Pipe.Wakeups.{read_round_lem, write_round_lem}
use melon_os.Fs.Pipe.Lost.{
  NoLost, then_state, read_round-NoLost, write_round-NoLost, pipe_close-NoLost,
}

-- the bytes that a step of `pipe_read` returns
abbrev pub got : Outcome → List ℕ
got (Outcome.read bs) = bs
got Outcome.wrote = []
got Outcome.failed = []
got (Outcome.asleep bs) = []

either {ℓ κ} :
    {A : Type ℓ} (P : A → Type κ) (b : Bool) (x y : A) → P x → P y → P (if b then x else y)
either P true x y hx hy = hx
either P false x y hx hy = hy

-- what a step does to the queue
abbrev Took : PipeState → Outcome × PipeState → Type 0
Took s (o, s1) = IsRing s1.pipe × (contents s.pipe ≡ got o ++ contents s1.pipe)

abbrev Gave : PipeState → List ℕ → Outcome × PipeState → Type 0
Gave s bs (o, s1) = IsRing s1.pipe × (contents s.pipe ++ bs ≡ contents s1.pipe)

-- Everybody may write, also one who was killed, and also with the read end closed.
abbrev pub Anybody : PipeState → ℕ → Type 0
Anybody s me = Unit

-- The read end is open, and the writer was not killed.
abbrev pub Undisturbed : PipeState → ℕ → Type 0
Undisturbed s me = (s.pipe.isreadopen ≡ true) × (killed_at s.table me ≡ false)

module _ (nread nwritten : Chan) where
  -- A run from a state to another, with the bytes that it puts into the pipe and those it takes. A
  -- process writes in the states that `MayWrite` lets through. Other processes may do anything to the
  -- table but put somebody to sleep on the pipe.
  pub data Run (MayWrite : PipeState → ℕ → Type 0)
      : PipeState → List ℕ → List ℕ → PipeState → Type 0 where
    stop : {s : PipeState} → Run MayWrite s [] [] s
    read :
        {s s1 : PipeState} {ws rs : List ℕ} (me n : ℕ)
        → me < length s.table
        → Run MayWrite (then_state nread nwritten (read_round nread nwritten s me n)) ws rs s1
        → Run MayWrite s ws (got (read_round nread nwritten s me n).0 ++ rs) s1
    write :
        {s s1 : PipeState} {ws rs : List ℕ} (me : ℕ) (bs : List ℕ)
        → me < length s.table
        → MayWrite s me
        → Run MayWrite (then_state nread nwritten (write_round nread nwritten s me bs)) ws rs s1
        → Run MayWrite s (take (pipesz - held s.pipe) bs ++ ws) rs s1
    close :
        {s s1 : PipeState} {ws rs : List ℕ} (write_end : Bool)
        → Run MayWrite (pipe_close nread nwritten s write_end).1 ws rs s1
        → Run MayWrite s ws rs s1
    others :
        {s s1 : PipeState} {ws rs : List ℕ} (t : List Process)
        → ((i : ℕ) → sleeps_on t i nread ≡ true → sleeps_on s.table i nread ≡ true)
        → ((i : ℕ) → sleeps_on t i nwritten ≡ true → sleeps_on s.table i nwritten ≡ true)
        → Run MayWrite (record s { table = t }) ws rs s1
        → Run MayWrite s ws rs s1

  module _ (apart : chan_eq nread nwritten ≡ false) (apart1 : chan_eq nwritten nread ≡ false) where
    -- In a run in which nobody writes who was killed, and nobody with the read end closed, no wakeup on
    -- the pipe is lost.
    pub Run-NoLost :
        {s s1 : PipeState} {ws rs : List ℕ}
        → Run Undisturbed s ws rs s1
        → NoLost nread nwritten s
        → NoLost nread nwritten s1
    Run-NoLost stop safe = safe
    Run-NoLost (read me n lt run) safe =
        Run-NoLost run (read_round-NoLost nread nwritten apart apart1 _ me n lt safe)
    Run-NoLost (write me bs lt (open1, alive) run) safe =
        Run-NoLost run (write_round-NoLost nread nwritten apart apart1 _ me bs lt open1 alive safe)
    Run-NoLost (close e run) safe =
        Run-NoLost run (pipe_close-NoLost nread nwritten apart apart1 _ e safe)
    Run-NoLost (others t rd wr run) safe = Run-NoLost run record {
      ring = safe.ring;
      readers = λ i h. safe.readers i (rd i h);
      writers = λ i h. safe.writers i (wr i h);
    }

  read_round-fifo :
      (s : PipeState) (me n : ℕ) → IsRing s.pipe → Took s (read_round nread nwritten s me n)
  read_round-fifo s me n ring = elim (read_round_lem nread nwritten s me n ring) [
    | inl (stay, eq) ↦
        subst (Took s) (sym eq)
          (either (Took s) (killed_at s.table me) _ _ (ring, refl) (ring, refl))
    | inr (go, q, ring1, left, eq) ↦ subst (Took s) (sym eq) (
      ring1,
      sym (take-append-drop n (contents s.pipe))
          ∙ ap (λ xs. take n (contents s.pipe) ++ xs) (sym left),
    )
  ]

  write_round-fifo :
      (s : PipeState) (me : ℕ) (bs : List ℕ)
      → IsRing s.pipe
      → Gave s (take (pipesz - held s.pipe) bs) (write_round nread nwritten s me bs)
  write_round-fifo s me bs ring =
      let (q, ring1, same, queue, ends) = write_round_lem nread nwritten s me bs ring in
      let P = Gave s (take (pipesz - held s.pipe) bs) in
      elim ends [
        | inl (left, eq) ↦ subst P (sym eq) (ring1, sym queue)
        | inr (more, full, eq) ↦ subst P (sym eq) (
            either P (not s.pipe.isreadopen || killed_at s.table me) _ _ (ring1, sym queue)
              (ring1, sym queue))
      ]

  pipe_close-fifo :
      (s : PipeState) (write_end : Bool)
      → IsRing s.pipe
      → (let s1 = (pipe_close nread nwritten s write_end).1 in
          IsRing s1.pipe × (contents s1.pipe ≡ contents s.pipe))
  unfolding pipe_close
  pipe_close-fifo s true ring = (
    record {
      size = ring.size;
      read_bound = ring.read_bound;
      written_bound = ring.written_bound;
      capacity = ring.capacity;
    },
    refl,
  )
  pipe_close-fifo s false ring = (
    record {
      size = ring.size;
      read_bound = ring.read_bound;
      written_bound = ring.written_bound;
      capacity = ring.capacity;
    },
    refl,
  )

  -- In every run on a well-formed ring, with writers that were killed and with ends that are closed,
  -- too, the bytes come out of the pipe in the order they went in, none lost and none twice.
  pub Run-fifo :
      {s s1 : PipeState} {ws rs : List ℕ}
      → Run Anybody s ws rs s1
      → IsRing s.pipe
      → contents s.pipe ++ ws ≡ rs ++ contents s1.pipe
  Run-fifo stop ring = append-nil _
  Run-fifo {s} {s1} (read {ws = ws} {rs = rs} me n lt run) ring =
      let (ring1, eq) = read_round-fifo s me n ring in
      let o = (read_round nread nwritten s me n).0 in
      ap (λ xs. xs ++ ws) eq
      ∙ append_assoc (got o) _ ws
      ∙ ap (λ xs. got o ++ xs) (Run-fifo run ring1)
      ∙ sym (append_assoc (got o) rs (contents s1.pipe))
  Run-fifo {s} {s1} (write {ws = ws} me bs lt may run) ring =
      let (ring1, eq) = write_round-fifo s me bs ring in
      sym (append_assoc (contents s.pipe) _ ws) ∙ ap (λ xs. xs ++ ws) eq ∙ Run-fifo run ring1
  Run-fifo {s} {s1} (close {ws = ws} e run) ring =
      let (ring1, eq) = pipe_close-fifo s e ring in
      ap (λ xs. xs ++ ws) (sym eq) ∙ Run-fifo run ring1
  Run-fifo (others t rd wr run) ring = Run-fifo run ring
