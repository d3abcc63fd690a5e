-- ===== src/Fs/Tests.antt =====
-- Concrete files and pipes.
use melon_os.Common.{
  ℕ, zero, suc, ◌-◌, ◌<◌, ◌≡◌, refl, ◌≢◌, ◌⊎◌, true, false, ◌&&◌, if◌then◌else◌, none, some, List,
  [], ◌∷◌, ◌++◌, take, drop, length, ok, panic, replicate, length-replicate, arith,
}
use melon_os.Fs.Types.{FdType, FileState}
use melon_os.Fs.File.{zero_file, file_at, put_file, file_allocate, file_dup, file_close}
use melon_os.Fs.File.Refs.{file_allocate_lem, file_close-dup, file_close_lem, is_inode, dropped}
use melon_os.Process.Types.{Chan, zero_process}
use melon_os.Process.Life.Missed.{sleeps_on}
use melon_os.Process.Table.{wakeup_unlocked}
use melon_os.Fs.Pipe.{
  pipesz, Pipe, PipeState, new_pipe, Outcome, is_empty, killed_at, put_to_sleep, read_round,
  write_round, pipe_close, read_loop, write_loop,
}
use melon_os.Fs.Pipe.Queue.{held, contents, IsRing}
use melon_os.Fs.Pipe.Wakeups.{WriteEnds, read_round_lem, write_round_lem}
use melon_os.Fs.Pipe.Lost.{NoLost}
use melon_os.Fs.Pipe.Runs.{Run, Anybody, Undisturbed, Run-fifo, Run-NoLost}

-- one file with a reference, on the inode in place 0
abbrev one_file : FileState
one_file = record {
  ftable = record (zero_file) { nref = 1; type = FdType.inode } ∷ zero_file ∷ [];
  icache = [];
}

file_allocate_lem_example :
    let s = one_file in
    ((i : ℕ) × (file_allocate s ≡ (some i, put_file s i (record (file_at s i) { nref = 1 })))
      × (i < length s.ftable)
      × ((file_at s i).nref ≡ 0)
      × ((j : ℕ) → j < i → (file_at s j).nref ≢ 0))
    ⊎ ((file_allocate s ≡ (none, s)) × ((j : ℕ) → j < length s.ftable → (file_at s j).nref ≢ 0))
file_allocate_lem_example = file_allocate_lem one_file

file_close-dup_example :
    (s' : FileState) × (file_dup one_file 0 ≡ ok s') × (file_close s' 0 ≡ ok one_file)
file_close-dup_example = file_close-dup one_file 0 (omega arith) (omega arith)

file_close_lem_example :
    let s = one_file in
    let f : ℕ = 0 in
    (((file_at s f).nref ≡ 0) × (file_close s f ≡ panic))
    ⊎ ((1 < (file_at s f).nref)
        × (file_close s f
            ≡ ok (put_file s f (record (file_at s f) { nref = (file_at s f).nref - 1 }))))
    ⊎ (((file_at s f).nref ≡ 1)
        × ((s' : FileState) × (file_close s f ≡ ok s')
            × ((file_at s' f).nref ≡ 0)
            × ((j : ℕ) → j ≢ f → file_at s' j ≡ file_at s j)
            × (s'.icache ≡ (
                if is_inode (file_at s f).type
                then dropped s.icache (file_at s f).ino
                else s.icache))))
file_close_lem_example = file_close_lem one_file 0 (omega arith)

-- the channels of a pipe, and a pipe that two processes have open
abbrev read_chan : Chan
read_chan = Chan.object 0

abbrev write_chan : Chan
write_chan = Chan.object 4

abbrev open_pipe : PipeState
open_pipe = record { pipe = new_pipe (replicate 512 0); table = zero_process ∷ zero_process ∷ [] }

open_pipe-IsRing : IsRing open_pipe.pipe
open_pipe-IsRing = record {
  size = length-replicate {A = ℕ} 512 0;
  read_bound = omega arith;
  written_bound = omega arith;
  capacity = omega arith;
}

open_pipe-calm : (i : ℕ) (c : Chan) → sleeps_on open_pipe.table i c ≡ false
open_pipe-calm zero c = refl
open_pipe-calm (suc zero) c = refl
open_pipe-calm (suc (suc i)) c = refl

open_pipe-NoLost : NoLost read_chan write_chan open_pipe
open_pipe-NoLost = record {
  ring = open_pipe-IsRing;
  readers = λ i h. cc (open_pipe-calm i read_chan, h);
  writers = λ i h. cc (open_pipe-calm i write_chan, h);
}

-- a reader that finds nothing, a writer of two bytes, a reader of one
abbrev reader_asleep : PipeState
unfolding read_round
reader_asleep = (read_round read_chan write_chan open_pipe 0 1).1

abbrev two_bytes : PipeState
unfolding write_round
two_bytes = (write_round read_chan write_chan reader_asleep 1 (7 ∷ 8 ∷ [])).1

abbrev one_byte : PipeState
one_byte = (read_round read_chan write_chan two_bytes 0 1).1

trace : Run read_chan write_chan Undisturbed open_pipe (7 ∷ 8 ∷ []) (7 ∷ []) one_byte
unfolding read_round read_loop write_round write_loop wakeup_unlocked
trace =
    Run.read 0 1 (omega arith)
      (Run.write 1 (7 ∷ 8 ∷ []) (omega arith) (refl, refl) (Run.read 0 1 (omega arith) Run.stop))

Run-NoLost_example : NoLost read_chan write_chan one_byte
Run-NoLost_example = Run-NoLost read_chan write_chan refl refl trace open_pipe-NoLost

-- The read end is closed before the write.
closed_trace :
    Run read_chan write_chan Anybody open_pipe
      (7 ∷ 8 ∷ [])
      []
      (write_round read_chan write_chan
        (pipe_close read_chan write_chan open_pipe false).1
        1
        (7 ∷ 8 ∷ [])).1
unfolding write_round write_loop wakeup_unlocked pipe_close
closed_trace = Run.close false (Run.write 1 (7 ∷ 8 ∷ []) (omega arith) tt Run.stop)

Run-fifo_example :
    contents open_pipe.pipe ++ (7 ∷ 8 ∷ [])
    ≡ []
      ++ contents
          (write_round read_chan write_chan
            (pipe_close read_chan write_chan open_pipe false).1
            1
            (7 ∷ 8 ∷ [])).1.pipe
Run-fifo_example = Run-fifo read_chan write_chan closed_trace open_pipe-IsRing

read_round_lem_example :
    let s = open_pipe in
    let me : ℕ = 0 in
    let n : ℕ = 1 in
    (((is_empty s.pipe && s.pipe.iswriteopen) ≡ true)
      × (read_round read_chan write_chan s me n ≡ (
          if killed_at s.table me
          then (Outcome.failed, s)
          else (Outcome.asleep [], record s { table = put_to_sleep s.table me read_chan }))))
    ⊎ (((is_empty s.pipe && s.pipe.iswriteopen) ≡ false)
        × (q : Pipe) × IsRing q
        × (contents q ≡ drop n (contents s.pipe))
        × (read_round read_chan write_chan s me n ≡ (
          Outcome.read (take n (contents s.pipe)),
          record { pipe = q; table = wakeup_unlocked s.table write_chan },
        )))
read_round_lem_example = read_round_lem read_chan write_chan open_pipe 0 1 open_pipe-IsRing

write_round_lem_example :
    let s = open_pipe in
    let bs : List ℕ = 7 ∷ 8 ∷ [] in
    (q : Pipe) × IsRing q
    × (q.isreadopen ≡ s.pipe.isreadopen)
    × (contents q ≡ contents s.pipe ++ take (pipesz - held s.pipe) bs)
    × WriteEnds read_chan write_chan s 1
        (drop (pipesz - held s.pipe) bs)
        q
        (write_round read_chan write_chan s 1 bs)
write_round_lem_example =
    write_round_lem read_chan write_chan open_pipe 1 (7 ∷ 8 ∷ []) open_pipe-IsRing
