-- ===== src/Fs/Pipe.antt =====
-- kernel/pipe.c: pipes. A call holds the lock of the pipe, which makes it one step up to a sleep; a
-- process that has been woken starts its loop again, as another step.
pub mod Queue
pub mod Wakeups
pub mod Lost
pub mod Runs
use melon_os.Common.{
  ℕ, zero, suc, ◌+◌, ◌%◌, ◌^◌, Bool, true, false, ◌&&◌, ◌||◌, not, leb, ◌==◌, if◌then◌else◌, Option,
  none, some, List, [], ◌∷◌, Result, ok, ◌>>=◌, ◌>>◌, kassert, get_or, set,
}
use melon_os.Memory.Palloc.{KernelMem, palloc, pfree}
use melon_os.Fs.Types.{FdType, File, FileState}
use melon_os.Fs.File.{file_at, put_file, file_allocate, file_close}
use melon_os.Process.Types.{zero_process, sleeping, Chan, Process}
use melon_os.Process.Table.{wakeup_unlocked}

abbrev pub pipesz : ℕ
pipesz = 512

-- `bytes` is `data`; the counters are 32-bit words. The lock is left out.
pub record Pipe : Type 0 where
  pub bytes : List ℕ
  pub nread : ℕ
  pub nwritten : ℕ
  pub isreadopen : Bool
  pub iswriteopen : Bool

-- A pipe and the process table.
pub record PipeState : Type 0 where
  pub pipe : Pipe
  pub table : List Process

abbrev pub next_count : ℕ → ℕ
next_count n = (n + 1) % 2 ^ 32

abbrev pub is_empty : Pipe → Bool
is_empty p = p.nread == p.nwritten

abbrev pub is_full : Pipe → Bool
is_full p = p.nwritten == (p.nread + pipesz) % 2 ^ 32

-- `while (n--)` of `pipe_read`: the bytes put into the buffer
unfoldable pub read_loop : ℕ → Pipe → List ℕ × Pipe
read_loop zero p = ([], p)
read_loop (suc n) p =
    let (bs, q) = read_loop n (record p { nread = next_count p.nread }) in
    if is_empty p then ([], p) else (get_or p.bytes (p.nread % pipesz) 0 ∷ bs, q)

-- one byte into a pipe that is not full
abbrev pub push_byte : Pipe → ℕ → Pipe
push_byte p b = record p {
  bytes = set p.bytes (p.nwritten % pipesz) b;
  nwritten = next_count p.nwritten;
}

-- `while (n--)` of `pipe_write` up to a full pipe: the bytes that are left
unfoldable pub write_loop : List ℕ → Pipe → List ℕ × Pipe
write_loop [] p = ([], p)
write_loop (b ∷ bs) p =
    let rest = write_loop bs (push_byte p b) in if is_full p then (b ∷ bs, p) else rest

-- How a step of a call ends: with its result, with -1, or asleep.
pub data Outcome : Type 0 where
  read : List ℕ → Outcome
  wrote : Outcome
  failed : Outcome
  asleep : List ℕ → Outcome

-- `sleep(chan, &pipe->lk)` up to the switch
abbrev pub put_to_sleep : List Process → ℕ → Chan → List Process
put_to_sleep t me c = set t me (record (get_or t me zero_process) { chan = c; state = sleeping })

abbrev pub killed_at : List Process → ℕ → Bool
killed_at t me = (get_or t me zero_process).killed

-- `nread` and `nwritten` are the channels `&pipe->nread` and `&pipe->nwritten`.
module _ (nread nwritten : Chan) where
  -- a round of `pipe_read`, behind its assertion
  unfoldable pub read_round : PipeState → ℕ → ℕ → Outcome × PipeState
  read_round s me n =
      let (bs, q) = read_loop n s.pipe in
      if is_empty s.pipe && s.pipe.iswriteopen
      then (if killed_at s.table me
          then (Outcome.failed, s)
          else (Outcome.asleep [], record s { table = put_to_sleep s.table me nread }))
      else (Outcome.read bs, record { pipe = q; table = wakeup_unlocked s.table nwritten })

  unfoldable pub pipe_read : PipeState → ℕ → ℕ → Result (Outcome × PipeState)
  pipe_read s me n = kassert (leb s.pipe.nread s.pipe.nwritten) >>= λ u. ok (read_round s me n)

  -- what `pipe_write` does at the end of its loop, or at a full pipe
  abbrev write_end : PipeState → ℕ → List ℕ × Pipe → Outcome × PipeState
  write_end s me ([], q) =
      (Outcome.wrote, record { pipe = q; table = wakeup_unlocked s.table nread })
  write_end s me (b ∷ bs, q) =
      if not q.isreadopen || killed_at s.table me
      then (Outcome.failed, record s { pipe = q })
      else (
        Outcome.asleep (b ∷ bs),
        record { pipe = q; table = put_to_sleep (wakeup_unlocked s.table nread) me nwritten },
      )

  -- a round of `pipe_write` for the bytes that are left, behind its assertion
  unfoldable pub write_round : PipeState → ℕ → List ℕ → Outcome × PipeState
  write_round s me bs = write_end s me (write_loop bs s.pipe)

  unfoldable pub pipe_write : PipeState → ℕ → List ℕ → Result (Outcome × PipeState)
  pipe_write s me bs = kassert (leb s.pipe.nread s.pipe.nwritten) >>= λ u. ok (write_round s me bs)

  -- `pipe_close` up to the release of the page: whether the page is freed
  unfoldable pub pipe_close : PipeState → Bool → Bool × PipeState
  pipe_close s close_write_end =
      let q =
        if close_write_end
        then record (s.pipe) { iswriteopen = false }
        else record (s.pipe) { isreadopen = false } in
      let c = if close_write_end then nread else nwritten in
      (
        not q.isreadopen && not q.iswriteopen,
        record { pipe = q; table = wakeup_unlocked s.table c },
      )

-- The new pipe of `pipe_allocate`, on a page that held `bytes`.
abbrev pub new_pipe : List ℕ → Pipe
new_pipe bytes = record {
  bytes = bytes;
  nread = 0;
  nwritten = 0;
  isreadopen = true;
  iswriteopen = true;
}

-- the end of a pipe at `page` in the file `f`
abbrev pub open_end : FileState → ℕ → ℕ → Bool → FileState
open_end s f page readable = put_file s f (record (file_at s f) {
  type = FdType.pipe;
  readable = readable;
  writable = not readable;
  pipe = page;
})

-- `pipe_allocate`: the two files and the page of the pipe
unfoldable pub pipe_allocate :
    FileState → KernelMem → Result (Option (ℕ × ℕ × ℕ) × FileState × KernelMem)
pipe_allocate s m =
    let (first, s1) = file_allocate s in
    elim first [
      | none ↦ ok (none, s1, m)
      | some r ↦
          let (second, s2) = file_allocate s1 in
          let (page, m1) = palloc m in
          elim second [
            | none ↦ file_close s2 r >>= λ s3. ok (none, s3, m)
            | some w ↦
                if page == 0
                then (file_close s2 r >>= λ s3. file_close s3 w >>= λ s4. ok (none, s4, m1))
                else ok (some (r, w, page), open_end (open_end s2 r page true) w page false, m1)
          ]
    ]
