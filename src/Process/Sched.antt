-- ===== src/Process/Sched.antt =====
-- kernel/process.c: `scheduler`, `yield` and `sleep`, and the calls of processes as steps.
pub mod Steps
use melon_os.Common.{
  ℕ, ◌+◌, Bool, true, false, Option, none, some, Result, ok, ◌>>=◌, find_from, drop,
}
use melon_os.Process.Types.{ready, running, sleeping, Chan, Process, Kernel, proc_at, put_proc}
use melon_os.Process.Table.{is_ready}
use melon_os.Process.Life.{uvm_switch}

-- The kernel with `cpu->proc`, and the slot at which the loop of `scheduler` goes on.
pub record Machine : Type 0 where
  pub kernel : Kernel
  pub proc : Option ℕ
  pub slot : ℕ

-- the body of the loop of `scheduler` for a slot that is ready, up to the switch
abbrev pub run_slot : Machine → ℕ → Result Machine
run_slot m i =
    let p = proc_at m.kernel i in
    uvm_switch p >>= λ u. ok (record {
      kernel = put_proc m.kernel i (record p { state = running });
      proc = some i;
      slot = i + 1;
    })

-- The loop of `scheduler` up to the next switch to a process; at the end of the table it starts
-- again.
unfoldable pub dispatch : Machine → Result Machine
dispatch m =
    elim (find_from (λ (p : Process). is_ready p.state) (drop m.slot m.kernel.table) m.slot) [
      | none ↦ ok (record m { slot = 0 })
      | some i ↦ run_slot m i
    ]

-- back in `scheduler`, after the switch
abbrev pub to_scheduler : Machine → Kernel → Machine
to_scheduler m k = record m { kernel = k; proc = none }

-- `yield` and `sleep` of the process in slot `me`, up to the switch
unfoldable pub yield : Machine → ℕ → Machine
yield m me = to_scheduler m (put_proc m.kernel me (record (proc_at m.kernel me) { state = ready }))

unfoldable pub sleep : Machine → ℕ → Chan → Machine
sleep m me c =
    to_scheduler m
      (put_proc m.kernel me (record (proc_at m.kernel me) { chan = c; state = sleeping }))

-- `sleep` behind the switch
unfoldable pub wake : Kernel → ℕ → Kernel
wake k me = put_proc k me (record (proc_at k me) { chan = Chan.null })
