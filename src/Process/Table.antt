-- ===== src/Process/Table.antt =====
-- kernel/process.c: slots of the process table, and waking what sleeps.
pub mod Slots
use melon_os.Common.{
  ℕ, ◌+◌, ◌-◌, Bool, true, false, ◌&&◌, ltb, ◌==◌, if◌then◌else◌, Option, none, some, List, map,
  Result, ok, panic, ◌>>=◌, drop, find_from, replicate,
}
use melon_os.Libc.Mem.{memset}
use melon_os.Memory.Word.{store32}
use melon_os.Memory.Palloc.{KernelMem, palloc, pfree}
use melon_os.Memory.Vmem.{vmfree}
use melon_os.Process.Types.{
  nproc, ProcState, unused, created, sleeping, ready, running, zombie, Chan, chan_eq, Process,
  Kernel, proc_at, put_proc,
}

abbrev pub is_unused : ProcState → Bool
is_unused unused = true
is_unused _ = false

abbrev pub is_sleeping : ProcState → Bool
is_sleeping sleeping = true
is_sleeping _ = false

abbrev pub is_ready : ProcState → Bool
is_ready ready = true
is_ready _ = false

abbrev pub is_running : ProcState → Bool
is_running running = true
is_running _ = false

abbrev pub is_zombie : ProcState → Bool
is_zombie zombie = true
is_zombie _ = false

-- `get_unused_process`: the search starts at slot 1.
unfoldable pub get_unused_process : Kernel → Option ℕ
get_unused_process k = find_from (λ (p : Process). is_unused p.state) (drop 1 k.table) 1

-- `sizeof(TrapFrame)` and `sizeof(Context)`
abbrev pub sizeof_trapframe : ℕ
sizeof_trapframe = 76

abbrev pub sizeof_context : ℕ
sizeof_context = 20

abbrev pub kstack_sz : ℕ
kstack_sz = 4096

-- The loop of `wakeup_unlocked`, which changes each slot on its own.
abbrev pub woken : Chan → Process → Process
woken c p = if is_sleeping p.state && chan_eq p.chan c then record p { state = ready } else p

unfoldable pub wakeup_unlocked : List Process → Chan → List Process
wakeup_unlocked t c = map (woken c) t

-- `wakeup`, whose lock is that of the table
unfoldable pub wakeup : Kernel → Chan → Kernel
wakeup k c = record k { table = wakeup_unlocked k.table c }

-- `trapret` and `forkret` are the addresses of the code that a new process returns through.
module _ (trapret forkret : ℕ) where
  -- `setup_process_stack` without a page, and on the page `page`: from its top, a trap frame, the
  -- address of `trapret`, and a cleared context that returns to `forkret`.
  abbrev pub no_stack : Kernel → ℕ → KernelMem → Kernel
  no_stack k i m =
      put_proc (record k { memory = m }) i (record (proc_at k i) { kstack = 0; state = unused })

  abbrev pub new_stack : Kernel → ℕ → ℕ → KernelMem → Kernel
  new_stack k i page m =
      let tf = page + kstack_sz - sizeof_trapframe in
      let ret = tf - 4 in
      let ctx = ret - sizeof_context in
      let mem = memset (store32 m.mem ret trapret) ctx 0 sizeof_context in
      put_proc (record k { memory = record m { mem = store32 mem (ctx + 16) forkret } }) i
        (record (proc_at k i) { kstack = page; trapframe = tf; context = ctx })

  unfoldable pub setup_process_stack : Kernel → ℕ → Bool × Kernel
  setup_process_stack k i =
      let (page, m) = palloc k.memory in
      if page == 0 then (false, no_stack k i m) else (true, new_stack k i page m)

  -- `allocate_process` behind the search, for the slot `i`
  unfoldable pub claim_slot : Kernel → ℕ → Option ℕ × Kernel
  claim_slot k i =
      let p = proc_at k i in
      let k1 =
        put_proc (record k { nextpid = k.nextpid + 1 }) i
          (record p { state = created; pid = k.nextpid }) in
      let (done, k2) = setup_process_stack k1 i in if done then (some i, k2) else (none, k2)

  unfoldable pub allocate_process : Kernel → Result (Option ℕ × Kernel)
  allocate_process k =
      if ltb nproc k.nextpid
      then panic
      else elim (get_unused_process k) [ none ↦ ok (none, k) | some i ↦ ok (claim_slot k i) ]

-- The fields of a slot after `deallocate_process_unlocked`; `file` is not among those it sets.
abbrev pub cleared : Process → Process
cleared p = record p {
  size = 0;
  pgdir = 0;
  kstack = 0;
  pid = 0;
  parent = none;
  state = unused;
  trapframe = 0;
  context = 0;
  chan = Chan.null;
  killed = false;
  name = replicate 16 0;
}

module _ (kernel_end : ℕ) where
  unfoldable pub free_pgdir : Kernel → ℕ → Result Kernel
  free_pgdir k pgdir =
      if pgdir == 0
      then ok k
      else vmfree kernel_end k.memory pgdir >>= λ m. ok (record k { memory = m })

  unfoldable pub free_kstack : Kernel → ℕ → Result Kernel
  free_kstack k kstack =
      if kstack == 0
      then ok k
      else pfree kernel_end k.memory kstack >>= λ m. ok (record k { memory = m })

  unfoldable pub deallocate_process_unlocked : Kernel → ℕ → Result Kernel
  deallocate_process_unlocked k i = do
    let p = proc_at k i
    k1 ← free_pgdir k p.pgdir
    k2 ← free_kstack k1 p.kstack
    ok (put_proc k2 i (cleared p))
