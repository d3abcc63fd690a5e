-- ===== src/Process/Tests.antt =====
-- Three processes: init, which waits for its child, the child, which runs, and a child of that.
use melon_os.Common.{
  ℕ, zero, suc, ◌<◌, ◌≤◌, ◌≡◌, ◌≢◌, refl, get_or, ◌+◌, ◌==◌, ◌||◌, ◌↔◌, ◌⊎◌, true, false,
  if◌then◌else◌, none, some, List, [], ◌∷◌, ok, panic, length, IsFirst, arith,
}
use melon_os.Process.Types.{
  nproc, zero_process, ready, running, sleeping, zombie, put_proc, Chan, Process, Kernel, proc_at,
}
use melon_os.Process.Table.{is_unused, is_ready, allocate_process}
use melon_os.Process.Table.Slots.{no_page, Claimed, allocate_process_lem}
use melon_os.Process.Life.{Waited, wait, exit, Exiting}
use melon_os.Locks.{SpinLock, Interrupts}
use melon_os.Process.Life.Found.{dead_child}
use melon_os.Process.Life.Missed.{at, is_child, NoMissed}
use melon_os.Process.Life.Orphans.{Exited}
use melon_os.Process.Life.Exit.{exit-Exited, exit-stopped_iff}
use melon_os.Process.Life.Wait.{Reaps, asleep_in_wait, wait_lem}
use melon_os.Process.Sched.{Machine, dispatch, yield}
use melon_os.Process.Sched.Steps.{Step, Reach, dispatch_lem, Reach-NoMissed}

abbrev family : List Process
family =
    record (zero_process) { state = sleeping; chan = Chan.proc 0; pid = 1 }
    ∷ record (zero_process) { state = running; parent = some 0; pid = 2 }
    ∷ record (zero_process) { state = ready; parent = some 1; pid = 3; pgdir = 4096; kstack = 8192 }
    ∷ []

abbrev kernel : Kernel
kernel = record {
  memory = record { mem = λ a. 0; freelist = 0 };
  files = record { ftable = []; icache = [] };
  table = family;
  nextpid = 4;
  init1 = some 0;
}

family-NoMissed : NoMissed family
family-NoMissed zero zero asleep child = ground (arith, child)
family-NoMissed zero (suc zero) asleep child = refl
family-NoMissed zero (suc (suc zero)) asleep child = refl
family-NoMissed zero (suc (suc (suc j))) asleep child = refl
family-NoMissed (suc zero) j asleep child = ground (arith, asleep)
family-NoMissed (suc (suc zero)) j asleep child = ground (arith, asleep)
family-NoMissed (suc (suc (suc i))) j asleep child = ground (arith, asleep)

abbrev unlocked : SpinLock
unlocked = record { locked = false; owned = false }

abbrev interrupts_on : Interrupts
interrupts_on = record { enabled = true; int_on = false; ncli = 0 }

exit-Exited_example :
    (k1 : Kernel) × (exit kernel unlocked interrupts_on 1 ≡ Exiting.switched k1)
    × Exited kernel 1 k1.table
exit-Exited_example =
    exit-Exited kernel unlocked interrupts_on 1 (omega arith) (omega arith) refl refl refl (λ e. cc)
      family-NoMissed

-- A process that exits with another lock held: interrupts are off, one level deep.
abbrev one_deep : Interrupts
one_deep = record { enabled = false; int_on = true; ncli = 1 }

exit-stopped_iff_example :
    (exit kernel unlocked one_deep 1 ≡ Exiting.stopped)
    ↔ ((kernel.init1 ≡ some 1) ⊎ (unlocked.locked ≡ true) ⊎ (one_deep.ncli ≢ 0))
exit-stopped_iff_example =
    exit-stopped_iff kernel unlocked one_deep 1 (omega arith) (λ lt. refl) refl

-- the family once the child of the running process is a zombie without memory of its own
abbrev bereaved : Kernel
bereaved = record kernel {
  table =
      get_or family 0 zero_process
      ∷ get_or family 1 zero_process
      ∷ record (zero_process) { state = zombie; parent = some 1; pid = 3 }
      ∷ [];
}

wait_lem_example :
    let k = bereaved in
    let me : ℕ = 1 in
    let kernel_end : ℕ = 0x80200000 in
    ((i : ℕ) × IsFirst (dead_child me) k.table zero_process i
      × Reaps kernel_end k i (wait kernel_end k me))
    ⊎ (((j : ℕ) × (is_child k.table j (some me) ≡ true))
        × ((j : ℕ) → dead_child me (at k.table j) ≡ false)
        × (wait kernel_end k me
            ≡ ok (
                if (proc_at k me).killed
                then Waited.returned none k
                else Waited.slept (asleep_in_wait k me))))
    ⊎ (((j : ℕ) → is_child k.table j (some me) ≡ false)
        × (wait kernel_end k me ≡ ok (Waited.returned none k)))
wait_lem_example = wait_lem 0x80200000 bereaved 1

allocate_process_lem_example :
    let k = kernel in
    ((nproc < k.nextpid) × (allocate_process 100 200 k ≡ panic))
    ⊎ ((k.nextpid ≤ nproc)
        × ((j : ℕ) → 1 ≤ j → j < length k.table → is_unused (proc_at k j).state ≡ false)
        × (allocate_process 100 200 k ≡ ok (none, k)))
    ⊎ ((k.nextpid ≤ nproc)
        × (i : ℕ) × (1 ≤ i)
        × (is_unused (proc_at k i).state ≡ true)
        × ((j : ℕ) → 1 ≤ j → j < i → is_unused (proc_at k j).state ≡ false)
        × (k1 : Kernel) × Claimed k i k1
        × (allocate_process 100 200 k ≡ ok ((if no_page k then none else some i), k1)))
allocate_process_lem_example = allocate_process_lem 100 200 kernel

abbrev machine : Machine
machine = record { kernel = kernel; proc = some 1; slot = 2 }

dispatch_lem_example :
    let m = machine in
    ((i : ℕ) × (m.slot ≤ i)
      × (i < length m.kernel.table)
      × (is_ready (proc_at m.kernel i).state ≡ true)
      × ((j : ℕ) → m.slot ≤ j → j < i → is_ready (proc_at m.kernel j).state ≡ false)
      × (dispatch m ≡ (
          let p = proc_at m.kernel i in
          if p.kstack == 0 || p.pgdir == 0
          then panic
          else ok (record {
            kernel = put_proc m.kernel i (record p { state = running });
            proc = some i;
            slot = i + 1;
          }))))
    ⊎ (((j : ℕ)
          → m.slot ≤ j
          → j < length m.kernel.table
          → is_ready (proc_at m.kernel j).state ≡ false)
        × (dispatch m ≡ ok (record m { slot = 0 })))
dispatch_lem_example = dispatch_lem machine

Reach-NoMissed_example : NoMissed (yield machine 1).kernel.table
Reach-NoMissed_example =
    Reach-NoMissed 0x80200000 (Reach.then_step Reach.here (Step.yielded machine 1 (omega arith)))
      family-NoMissed
