-- ===== src/Process/Life/Exit.antt =====
-- kernel/process.c: how a call of `exit` goes.
use melon_os.Common.{
  ℕ, ◌+◌, ◌⊎◌, if-on, if-off, Result, ◌<◌, ◌≤◌, ◌≡◌, ◌≢◌, refl, ◌∙◌, sym, ap, ◌↔◌, inl, inr, true,
  false, ◌==◌, if◌then◌else◌, some, ok, panic, length, Bool-cases, arith,
}
use melon_os.Process.Types.{Process, Kernel, nproc, proc_at}
use melon_os.Locks.{SpinLock, Interrupts, Locking, lock}
use melon_os.Locks.Nesting.{
  IsOff, holding-Same, lock-free, lock-taken, push_cli-depth, push_cli-dark,
}
use melon_os.Process.Table.{is_running}
use melon_os.Process.Life.{proc_eq, exit, exit_table, exit_locked, sched, switch_away, Exiting}
use melon_os.Process.Life.Missed.{is_child, NoMissed}
use melon_os.Process.Life.Orphans.{Exited, exit_table-Exited, exit_table-idle}
use melon_os.Process.Life.Reparent.{proc_eq_refl, proc_eq-same, true≢false}

switched-stopped : (k : Kernel) → Exiting.switched k ≢ Exiting.stopped
switched-stopped k = λ e. cc

switched-kernel :
    (k : Kernel) (r : Result (Unit {0})) (k1 : Kernel)
    → switch_away k r ≡ Exiting.switched k1
    → k ≡ k1
switched-kernel k (ok u) k1 h = cc
switched-kernel k panic k1 h = cc

locked-switched :
    (k : Kernel) (me : ℕ) (l : Locking) (k1 : Kernel)
    → exit_locked k me l ≡ Exiting.switched k1
    → exit_table k me ≡ k1
locked-switched k me Locking.stopped k1 h = cc
locked-switched k me Locking.spins k1 h = cc
locked-switched k me (Locking.acquired lk c) k1 h =
    let k2 = exit_table k me in switched-kernel k2 (sched lk c (proc_at k2 me)) k1 h

-- Who gets to the switch in `exit` is not init, and leaves the table as it then is.
pub exit-switched :
    (k : Kernel) (lk : SpinLock) (cpu : Interrupts) (me : ℕ) (k1 : Kernel)
    → exit k lk cpu me ≡ Exiting.switched k1
    → (k.init1 ≢ some me) × (exit_table k me ≡ k1)
unfolding exit
exit-switched k lk cpu me k1 h = elim (Bool-cases (proc_eq (some me) k.init1)) [
  | inl e ↦ let bad = sym (if-on Exiting.stopped (exit_locked k me (lock lk cpu)) e) ∙ h in cc
  | inr ne ↦ (
    (λ eq. absurd (true≢false (sym (proc_eq_refl (some me)) ∙ (rw eq at ne)))),
    locked-switched k me (lock lk cpu) k1
        (sym (if-off Exiting.stopped (exit_locked k me (lock lk cpu)) ne) ∙ h),
  )
]

-- `sched` of a process that does not run, with the lock of the table: it panics inside a further
-- section.
sched_lem :
    (c : Interrupts) (p : Process)
    → IsOff c
    → is_running p.state ≡ false
    → c.enabled ≡ false
    → sched (record { locked = true; owned = true }) c p ≡ (if c.ncli == 1 then ok tt else panic)
unfolding sched
sched_lem c p off idle dark =
    let (c1, eq, same) = holding-Same (record { locked = true; owned = true }) c off in
    rw (eq, same.depth, same.enabled, idle, dark)
      (elim (Bool-cases (c.ncli == 1)) [ inl on ↦ rw on refl | inr more ↦ rw more refl ])

-- With the lock free, `exit` of a process that is not init switches to the scheduler unless
-- interrupts were off already, in which case `sched` panics.
exit-free :
    (k : Kernel) (me : ℕ)
    → me < length k.table
    → (lk : SpinLock) (cpu : Interrupts) → IsOff cpu
    → lk.locked ≡ false
    → proc_eq (some me) k.init1 ≡ false
    → exit k lk cpu me
      ≡ (if cpu.ncli == 0 then Exiting.switched (exit_table k me) else Exiting.stopped)
unfolding exit
exit-free k me within lk cpu off free differs =
    let k1 = exit_table k me in
    let (c1, got, same) = lock-free lk cpu off free in
    let depth : c1.ncli ≡ cpu.ncli + 1 = same.depth ∙ push_cli-depth cpu in
    let dark : c1.enabled ≡ false = same.enabled ∙ push_cli-dark cpu in
    let gate = sched_lem c1 (proc_at k1 me) (λ lt. dark) (exit_table-idle k me within) dark in
    if-off Exiting.stopped (exit_locked k me (lock lk cpu)) differs
    ∙ ap (exit_locked k me) got
    ∙ ap (switch_away k1) gate
    ∙ elim (Bool-cases (cpu.ncli == 0)) [
      | inl out ↦ let one : (c1.ncli == 1) ≡ true = ground (arith, depth, out) in rw (one, out) refl
      | inr inside ↦
          let more : (c1.ncli == 1) ≡ false = ground (arith, depth, inside) in
          rw (more, inside) refl
    ]

-- A process in the table that is not init and not its own parent, and that calls `exit` with
-- interrupts on and the lock of the table free, gets through `lock` and `sched` to the scheduler, and
-- leaves the table as `Exited` says, where nobody had missed a wakeup before.
pub exit-Exited :
    (k : Kernel) (lk : SpinLock) (cpu : Interrupts) (me : ℕ)
    → me < length k.table
    → length k.table ≤ nproc
    → is_child k.table me (some me) ≡ false
    → lk.locked ≡ false
    → cpu.ncli ≡ 0
    → k.init1 ≢ some me
    → NoMissed k.table
    → (k1 : Kernel) × (exit k lk cpu me ≡ Exiting.switched k1) × Exited k me k1.table
exit-Exited k lk cpu me within full no_loop free out other safe =
    let differs : proc_eq (some me) k.init1 ≡ false =
      elim (Bool-cases (proc_eq (some me) k.init1)) [
        | inl e ↦ absurd (other (proc_eq-same (some me) k.init1 e))
        | inr ne ↦ ne
      ] in
    let outside : (cpu.ncli == 0) ≡ true = ground (arith, out) in
    (
      exit_table k me,
      exit-free k me within lk cpu (λ lt. absurd (omega (arith, out, lt))) free differs
          ∙ if-on _ _ outside,
      exit_table-Exited k me within full no_loop other safe,
    )

-- Where the lock is held by this processor or not at all, `exit` of a process in the table panics
-- for init, with the lock of the table held, and inside a section with interrupts off, and in differs
-- other case.
pub exit-stopped_iff :
    (k : Kernel) (lk : SpinLock) (cpu : Interrupts) (me : ℕ)
    → me < length k.table
    → IsOff cpu
    → lk.owned ≡ lk.locked
    → (exit k lk cpu me ≡ Exiting.stopped)
      ↔ ((k.init1 ≡ some me) ⊎ (lk.locked ≡ true) ⊎ (cpu.ncli ≢ 0))
unfolding exit
exit-stopped_iff k lk cpu me within off own = elim (Bool-cases (proc_eq (some me) k.init1)) [
  | inl e ↦ (
    (λ h. inl (proc_eq-same (some me) k.init1 e)),
    (λ h. if-on Exiting.stopped (exit_locked k me (lock lk cpu)) e),
  )
  | inr differs ↦ elim (Bool-cases lk.locked) [
    | inl held ↦ (
      (λ h. inr (inl held)),
      (λ h.
          if-off Exiting.stopped (exit_locked k me (lock lk cpu)) differs
          ∙ ap (exit_locked k me) (lock-taken lk cpu held (own ∙ held))),
    )
    | inr free ↦
        let eq = exit-free k me within lk cpu off free differs in
        elim (Bool-cases (cpu.ncli == 0)) [
          | inl out ↦
              let zero_depth : cpu.ncli ≡ 0 = ground (arith, out) in
              (
                (λ h.
                    let bad =
                      sym (if-on (Exiting.switched (exit_table k me)) Exiting.stopped out)
                      ∙ sym eq
                      ∙ h in
                    absurd (switched-stopped (exit_table k me) bad)),
                elim [
                  | inl init ↦
                      absurd (true≢false (sym (proc_eq_refl (some me)) ∙ (rw init at differs)))
                  | inr (inl held) ↦ absurd (true≢false (sym held ∙ free))
                  | inr (inr inside) ↦ absurd (inside zero_depth)
                ],
              )
          | inr inside ↦
              ((λ h. inr (inr (λ z. ground (arith, z, inside)))), (λ h. eq ∙ if-off _ _ inside))
        ]
  ]
]
