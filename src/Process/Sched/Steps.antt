-- ===== src/Process/Sched/Steps.antt =====
-- kernel/process.c: the calls of processes as steps between switches.
use melon_os.Common.{
  ℕ, ◌+◌, ◌<◌, ◌≤◌, ◌≡◌, ◌⊎◌, refl, sym, ◌∙◌, ap, subst, inl, inr, Bool, true, false, ◌&&◌, ◌||◌,
  if◌then◌else◌, panic, ◌==◌, some, List, Result, ok, find_from, find_from-some, find_from-none,
  drop, length, length-drop, get_or-drop, ◌-◌, set, get_or, get_or-set, Bool-cases, Option-cases,
  arith,
}
use melon_os.Process.Types.{
  nproc, zero_process, running, Chan, chan_eq, Process, Kernel, proc_at, put_proc,
}
use melon_os.Process.Table.{is_ready, is_running, is_sleeping, is_zombie, wakeup}
use melon_os.Process.Life.{uvm_switch, Waited, wait, exit, Exiting}
use melon_os.Locks.{SpinLock, Interrupts}
use melon_os.Process.Life.Missed.{at, is_child, NoMissed, wakeup-NoMissed}
use melon_os.Process.Life.Orphans.{exit_table-Exited}
use melon_os.Process.Life.Exit.{exit-switched}
use melon_os.Process.Life.Reap.{bind-ok, ok-inj}
use melon_os.Process.Life.Wait.{wait-NoMissed, after}
use melon_os.Process.Sched.{Machine, dispatch, run_slot, yield, sleep, wake}

-- A slot that keeps its parent, is no zombie and does not sleep on a process.
pub set-NoMissed :
    (t : List Process) (i : ℕ) (p : Process)
    → i < length t
    → p.parent ≡ (at t i).parent
    → is_zombie p.state ≡ false
    → ((a : ℕ) → (is_sleeping p.state && chan_eq p.chan (Chan.proc a)) ≡ false)
    → NoMissed t
    → NoMissed (set t i p)
set-NoMissed t i p lt same alive calm safe a b =
    rw (get_or-set t i a p zero_process lt, get_or-set t i b p zero_process lt)
      (elim (Bool-cases (a == i)) [
        | inl e ↦ rw e (ground (arith, calm a))
        | inr ne ↦ rw ne (ground (arith, safe a b, same))
      ])

-- what the scheduler makes of a slot that is ready
run_slot_lem :
    (m : Machine) (i : ℕ)
    → run_slot m i ≡ (
        let p = proc_at m.kernel i in
        if p.kstack == 0 || p.pgdir == 0
        then panic
        else ok (record {
          kernel = put_proc m.kernel i (record p { state = running });
          proc = some i;
          slot = i + 1;
        }))
unfolding uvm_switch
run_slot_lem m i =
    let p = proc_at m.kernel i in
    elim (Bool-cases (p.kstack == 0)) [
      | inl bare ↦ rw bare refl
      | inr stack ↦ elim (Bool-cases (p.pgdir == 0)) [
        | inl bare ↦ rw (stack, bare) refl
        | inr space ↦ rw (stack, space) refl
      ]
    ]

-- The next process to run is the first that is ready from the slot where the loop stands: without a
-- stack or an address space it makes the scheduler panic, else it runs, as the current process, and
-- the loop stands at the slot behind it. With none ready, the loop starts again at slot 0.
pub dispatch_lem :
    (m : Machine)
    → ((i : ℕ) × (m.slot ≤ i)
        × (i < length m.kernel.table)
        × (is_ready (proc_at m.kernel i).state ≡ true)
        × ((j : ℕ) → m.slot ≤ j → j < i → is_ready (proc_at m.kernel j).state ≡ false)
        × (dispatch m ≡ (
            let p = proc_at m.kernel i in
            if p.kstack == 0 || p.pgdir == 0
            then panic
            else ok (record {
              kernel = put_proc m.kernel i (record p { state = running });
              proc = some i;
              slot = i + 1;
            }))))
      ⊎ (((j : ℕ)
            → m.slot ≤ j
            → j < length m.kernel.table
            → is_ready (proc_at m.kernel j).state ≡ false)
          × (dispatch m ≡ ok (record m { slot = 0 })))
unfolding dispatch
dispatch_lem m =
    let test : Process → Bool = λ p. is_ready p.state in
    let t = m.kernel.table in
    let seen : (j : ℕ)
        → m.slot ≤ j
        → test (get_or (drop m.slot t) (j - m.slot) zero_process) ≡ test (at t j) =
      λ j le.
        ap test (get_or-drop m.slot t (j - m.slot) zero_process)
        ∙ ap (λ k. test (at t k)) (let e : m.slot + (j - m.slot) ≡ j = omega (arith, le) in e) in
    elim (Option-cases (find_from test (drop m.slot t) m.slot)) [
      | inl eq ↦
          let past = find_from-none test (drop m.slot t) zero_process m.slot eq in
          inr (
            λ j le lt.
                sym (seen j le) ∙ past (j - m.slot) (omega (arith, length-drop m.slot t, le, lt)),
            rw (eq, dispatch) refl,
          )
      | inr (i, eq) ↦
          let (d, place, first) = find_from-some test (drop m.slot t) zero_process m.slot i eq in
          inl (
            i,
            omega arith,
            omega (arith, first.within, length-drop m.slot t),
            sym (seen i (omega arith))
                ∙ ap (λ k. test (get_or (drop m.slot t) k zero_process))
                    (let e : i - m.slot ≡ d = omega (arith, place) in e)
                ∙ first.passes,
            (λ j le lt.
                sym (seen j le) ∙ first.earlier (j - m.slot) (omega (arith, place, le, lt))),
            rw (eq, dispatch) (run_slot_lem m i),
          )
    ]

-- A step of the machine: the scheduler switches to a process, or a process that runs gives the
-- machine back, waits, exits, or wakes others. A sleeper outside `wait` has the address of an object
-- as its channel, and a process that has been woken clears it.
module _ (kernel_end : ℕ) where
  pub data Step : Kernel → Kernel → Type 0 where
    dispatched : (m m1 : Machine) → dispatch m ≡ ok m1 → Step m.kernel m1.kernel
    yielded :
        (m : Machine) (me : ℕ) → me < length m.kernel.table → Step m.kernel (yield m me).kernel
    slept :
        (m : Machine) (me a : ℕ)
        → me < length m.kernel.table
        → Step m.kernel (sleep m me (Chan.object a)).kernel
    waited :
        (k : Kernel) (me : ℕ) (w : Waited)
        → me < length k.table
        → wait kernel_end k me ≡ ok w
        → Step k (after w)
    exited :
        (k : Kernel) (lk : SpinLock) (c : Interrupts) (me : ℕ) (k1 : Kernel)
        → me < length k.table
        → length k.table ≤ nproc
        → is_child k.table me (some me) ≡ false
        → exit k lk c me ≡ Exiting.switched k1
        → Step k k1
    resumed :
        (k : Kernel) (me : ℕ)
        → me < length k.table
        → is_running (proc_at k me).state ≡ true
        → Step k (wake k me)
    woke : (k : Kernel) (c : Chan) → Step k (wakeup k c)

  pub data Reach : Kernel → Kernel → Type 0 where
    here : {k : Kernel} → Reach k k
    then_step : {k k1 k2 : Kernel} → Reach k k1 → Step k1 k2 → Reach k k2

  Step-NoMissed : {k k1 : Kernel} → Step k k1 → NoMissed k.table → NoMissed k1.table
  unfolding yield sleep wake wakeup
  Step-NoMissed (dispatched m m1 h) safe = elim (dispatch_lem m) [
    | inl (i, _, lt, on, _, eq) ↦
        let p = proc_at m.kernel i in
        let finish : Unit {0} → Result Machine = λ u. ok (record {
          kernel = put_proc m.kernel i (record p { state = running });
          proc = some i;
          slot = i + 1;
        }) in
        let (_, _, last) = bind-ok (uvm_switch p) finish m1 (run_slot_lem m i ∙ sym eq ∙ h) in
        subst (λ q. NoMissed q.kernel.table) (ok-inj last)
          (set-NoMissed m.kernel.table i _ lt refl refl (λ a. refl) safe)
    | inr (_, eq) ↦ subst (λ q. NoMissed q.kernel.table) (ok-inj (sym eq ∙ h)) safe
  ]
  Step-NoMissed (yielded m me lt) safe =
      set-NoMissed m.kernel.table me _ lt refl refl (λ a. refl) safe
  Step-NoMissed (slept m me a lt) safe =
      set-NoMissed m.kernel.table me _ lt refl refl (λ b. refl) safe
  Step-NoMissed (waited k me w lt h) safe = wait-NoMissed kernel_end k me w lt safe h
  Step-NoMissed (exited k lk c me k1 lt full no_loop h) safe =
      let (other, eq) = exit-switched k lk c me k1 h in
      let left = exit_table-Exited k me lt full no_loop other safe in
      subst (λ q. NoMissed q.table) eq left.safe
  Step-NoMissed (resumed k me lt on) safe =
      set-NoMissed k.table me _ lt refl (ground (arith, on)) (λ a. ground arith) safe
  Step-NoMissed (woke k c) safe = wakeup-NoMissed k.table c safe

  -- In every run no process sleeps in `wait` while one of its children is a zombie.
  pub Reach-NoMissed : {k k1 : Kernel} → Reach k k1 → NoMissed k.table → NoMissed k1.table
  Reach-NoMissed here safe = safe
  Reach-NoMissed (then_step run step) safe = Step-NoMissed step (Reach-NoMissed run safe)
