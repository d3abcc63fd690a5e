-- ===== src/Process/Life.antt =====
-- kernel/process.c: `grow_process`, `fork`, `exit` and `wait`. A call is made by the process in the
-- slot `me`; the lock of the table makes it one step up to a switch.
pub mod Missed
pub mod Reparent
pub mod Orphans
pub mod Exit
pub mod Found
pub mod Reap
pub mod Wait
use melon_os.Common.{
  ℕ, suc, zero, ◌+◌, ◌-◌, ◌*◌, ◌/◌, ◌%◌, ◌^◌, Bool, true, false, not, ◌==◌, if◌then◌else◌, Option,
  none, some, List, [], ◌∷◌, Result, ok, ◌>>=◌, ◌>>◌, panic, kassert, get_or, set,
}
use melon_os.Common.Int.{ℤ, pos, negsuc}
use melon_os.Libc.Mem.{memmove}
use melon_os.Memory.Word.{store32}
use melon_os.Memory.Palloc.{KernelMem}
use melon_os.Memory.Vmem.{uvm_allocate, uvm_deallocate, uvm_copy}
use melon_os.Fs.Types.{FileState}
use melon_os.Fs.File.{file_dup}
use melon_os.Locks.{SpinLock, Interrupts, Locking, holding, lock}
use melon_os.Process.Types.{
  nproc, zero_process, ready, sleeping, zombie, Chan, Process, Kernel, proc_at, put_proc,
}
use melon_os.Process.Table.{
  is_running, is_zombie, sizeof_trapframe, wakeup_unlocked, allocate_process,
  deallocate_process_unlocked,
}

-- `p == q` for pointers to processes
abbrev pub proc_eq : Option ℕ → Option ℕ → Bool
proc_eq none none = true
proc_eq none (some b) = false
proc_eq (some a) none = false
proc_eq (some a) (some b) = a == b

-- a pointer to a process as a channel
abbrev pub chan_of : Option ℕ → Chan
chan_of none = Chan.null
chan_of (some i) = Chan.proc i

-- What `uvm_switch` demands before it loads the registers.
unfoldable pub uvm_switch : Process → Result (Unit {0})
uvm_switch p = do kassert (not (p.kstack == 0)); kassert (not (p.pgdir == 0))

-- `sz + n` on 32-bit words
abbrev pub add_int : ℕ → ℤ → ℕ
add_int sz (pos n) = (sz + n) % 2 ^ 32
add_int sz (negsuc n) = (sz + 2 ^ 32 - suc n) % 2 ^ 32

-- `if (--n) *d = 0;` behind the NUL, in the part of the array that is left
abbrev pub zero_next : List ℕ → List ℕ
zero_next [] = []
zero_next (x ∷ []) = x ∷ []
zero_next (x ∷ y ∷ r) = 0 ∷ y ∷ r

-- `strncpy(dest, src, n)` on two arrays of `n` bytes, inside the destination
unfoldable pub strncpy_array : List ℕ → List ℕ → List ℕ
strncpy_array [] ss = []
strncpy_array (d ∷ ds) [] = d ∷ ds
strncpy_array (d ∷ ds) (s ∷ ss) = if s == 0 then 0 ∷ zero_next ds else s ∷ strncpy_array ds ss

-- The source ends in its first NUL, and the further 0 goes to the byte behind the destination.
unfoldable pub overruns : List ℕ → Bool
overruns [] = false
overruns (s ∷ []) = s == 0
overruns (s ∷ t ∷ ss) = if s == 0 then false else overruns (t ∷ ss)

-- `name` is the last field of a process: the byte behind it is the low byte of the next `size`.
unfoldable pub copy_name : Kernel → ℕ → List ℕ → Kernel
copy_name k i src =
    let p = proc_at k i in
    let k1 = put_proc k i (record p { name = strncpy_array p.name src }) in
    let q = proc_at k1 (i + 1) in
    if overruns src then put_proc k1 (i + 1) (record q { size = q.size / 256 * 256 }) else k1

-- the loop of `fork` over the descriptors of the parent, with those of the child beside them
unfoldable pub dup_files :
    FileState → List (Option ℕ) → List (Option ℕ) → Result (List (Option ℕ) × FileState)
dup_files s [] cs = ok (cs, s)
dup_files s (f ∷ fs) [] = ok ([], s)
dup_files s (none ∷ fs) (c ∷ cs) = dup_files s fs cs >>= λ (rest, s1). ok (c ∷ rest, s1)
dup_files s (some f ∷ fs) (c ∷ cs) = do
  s1 ← file_dup s f
  (rest, s2) ← dup_files s1 fs cs
  ok (some f ∷ rest, s2)

-- one round of the loop of `exit`: a child of `me` in slot `i` passes to init
unfoldable pub adopt : ℕ → Option ℕ → ℕ → List Process → List Process
adopt i init1 me t =
    let p = get_or t i zero_process in
    let t1 = set t i (record p { parent = init1 }) in
    if proc_eq p.parent (some me)
    then if is_zombie p.state then wakeup_unlocked t1 (chan_of init1) else t1
    else t

-- the loop of `exit` over the table from slot `i` on, with `rounds` slots left
unfoldable pub reparent : ℕ → ℕ → Option ℕ → ℕ → List Process → List Process
reparent zero i init1 me t = t
reparent (suc rounds) i init1 me t = reparent rounds (i + 1) init1 me (adopt i init1 me t)

-- `exit` between `lock` and `sched`
unfoldable pub exit_table : Kernel → ℕ → Kernel
exit_table k me =
    let t1 = wakeup_unlocked k.table (chan_of (proc_at k me).parent) in
    let t2 = reparent nproc 0 k.init1 me t1 in
    let p = get_or t2 me zero_process in
    record k { table = set t2 me (record p { state = zombie }) }

-- `sched` of the process `p` with the lock of the table, up to the switch
unfoldable pub sched : SpinLock → Interrupts → Process → Result (Unit {0})
sched lk c p = do
  (held, c1) ← holding lk c
  kassert held
  kassert (c1.ncli == 1)
  kassert (not (is_running p.state))
  kassert (not c1.enabled)

-- How a call of `exit` goes: it stops in `panic`, waits for the lock for ever, or switches to the
-- scheduler and does not come back.
pub data Exiting : Type 0 where
  stopped spins : Exiting
  switched : Kernel → Exiting

abbrev pub switch_away : Kernel → Result (Unit {0}) → Exiting
switch_away k panic = Exiting.stopped
switch_away k (ok u) = Exiting.switched k

-- `exit` behind `lock(&ptable.lk)`
abbrev pub exit_locked : Kernel → ℕ → Locking → Exiting
exit_locked k me Locking.stopped = Exiting.stopped
exit_locked k me Locking.spins = Exiting.spins
exit_locked k me (Locking.acquired lk c) =
    let k1 = exit_table k me in switch_away k1 (sched lk c (proc_at k1 me))

-- `exit`, where `lk` is the lock of the table
unfoldable pub exit : Kernel → SpinLock → Interrupts → ℕ → Exiting
exit k lk c me = if proc_eq (some me) k.init1 then Exiting.stopped else exit_locked k me (lock lk c)

-- What the loop of `wait` over the table finds: the first child that is a zombie, or whether there
-- are children at all.
pub data Scan : Type 0 where
  reap : ℕ → Scan
  children : Scan
  childless : Scan

unfoldable pub wait_scan : List Process → ℕ → ℕ → Bool → Scan
wait_scan [] i me haskids = if haskids then Scan.children else Scan.childless
wait_scan (p ∷ ps) i me haskids =
    if proc_eq p.parent (some me)
    then if is_zombie p.state then Scan.reap i else wait_scan ps (i + 1) me true
    else wait_scan ps (i + 1) me haskids

-- A round of the loop of `wait`: it returns a pid or -1 (`none`), or sleeps on the process itself.
pub data Waited : Type 0 where
  returned : Option ℕ → Kernel → Waited
  slept : Kernel → Waited

module _ (kernel_end : ℕ) where
  unfoldable pub wait_reap : Kernel → ℕ → Result Waited
  wait_reap k i =
      let pid = (proc_at k i).pid in
      deallocate_process_unlocked kernel_end k i >>= λ k1. ok (Waited.returned (some pid) k1)

  unfoldable pub wait : Kernel → ℕ → Result Waited
  wait k me =
      let p = proc_at k me in
      elim (wait_scan k.table 0 me false) [
        | Scan.reap i ↦ wait_reap k i
        | Scan.childless ↦ ok (Waited.returned none k)
        | Scan.children ↦
            if p.killed
            then ok (Waited.returned none k)
            else ok
                (Waited.slept (put_proc k me (record p { chan = Chan.proc me; state = sleeping })))
      ]

  -- the call that `grow_process` makes, none for `n == 0`
  abbrev grow : Kernel → ℕ → ℤ → Option (Result (ℕ × KernelMem))
  grow k me (pos zero) = none
  grow k me (pos (suc n)) =
      let p = proc_at k me in
      some (uvm_allocate kernel_end k.memory p.pgdir p.size (add_int p.size (pos (suc n))))
  grow k me (negsuc n) =
      let p = proc_at k me in
      some (uvm_deallocate kernel_end k.memory p.pgdir p.size (add_int p.size (negsuc n)))

  -- `grow_process`: `true` for the result 0
  unfoldable pub grow_process : Kernel → ℕ → ℤ → Result (Bool × Kernel)
  grow_process k me n = elim (grow k me n) [
    | none ↦ ok (true, k)
    | some call ↦ do
      (sz, m) ← call
      let k1 = record k { memory = m }
      let p = record (proc_at k me) { size = sz }
      if sz == 0 then ok (false, k1) else do uvm_switch p; ok (true, put_proc k1 me p)
  ]

module _ (kernel_end kernel_data trapret forkret : ℕ) where
  -- `fork` behind the copy of the address space, for the child in slot `c`
  unfoldable pub fork_child : Kernel → ℕ → ℕ → ℕ → Result (Option ℕ × Kernel)
  fork_child k me c pgdir = do
    let parent = proc_at k me
    let child = proc_at k c
    let mem = memmove k.memory.mem child.trapframe parent.trapframe sizeof_trapframe
    let m = record (k.memory) { mem = store32 mem (child.trapframe + 28) 0 }
    (file, files) ← dup_files k.files parent.file child.file
    let k1 =
        copy_name
          (put_proc (record k { memory = m; files = files }) c
            (record child { pgdir = pgdir; size = parent.size; parent = some me; file = file }))
          c parent.name
    ok (some (proc_at k1 c).pid, put_proc k1 c (record (proc_at k1 c) { state = ready }))

  unfoldable pub fork_into : Kernel → ℕ → ℕ → Result (Option ℕ × Kernel)
  fork_into k me c = do
    let parent = proc_at k me
    (copied, pgdir, m) ← uvm_copy kernel_end kernel_data k.memory parent.pgdir parent.size
    let k1 = record k { memory = m }
    if copied
        then fork_child k1 me c pgdir
        else do k2 ← deallocate_process_unlocked kernel_end k1 c; ok (none, k2)

  -- `fork` in the parent: the pid of the child, `none` for -1
  unfoldable pub fork : Kernel → ℕ → Result (Option ℕ × Kernel)
  fork k me = do
    (slot, k1) ← allocate_process trapret forkret k
    elim slot [ none ↦ ok (none, k1) | some c ↦ fork_into k1 me c ]
