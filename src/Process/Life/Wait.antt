-- ===== src/Process/Life/Wait.antt =====
-- kernel/process.c: what `wait` finds in the process table, and what it leaves there.
use melon_os.Common.{
  subst, ℕ, ◌<◌, ◌≡◌, refl, ◌∙◌, sym, ap, ◌⊎◌, inl, inr, Bool, true, false, ◌==◌, if◌then◌else◌,
  none, some, List, ok, panic, Result, ◌>>=◌, set, length, get_or-set, Bool-cases, arith, IsFirst,
}
use melon_os.Process.Types.{zero_process, sleeping, Chan, Process, Kernel, proc_at, put_proc}
use melon_os.Process.Table.{deallocate_process_unlocked, cleared}
use melon_os.Process.Life.{Waited, wait, wait_reap}
use melon_os.Process.Life.Found.{dead_child, wait_scan-cases}
use melon_os.Process.Life.Reap.{
  bind-ok, ok-inj, deallocate_process_unlocked-table, BadMemory, Reaped,
  deallocate_process_unlocked_lem,
}
use melon_os.Process.Life.Missed.{at, is_child, NoMissed}

cleared-NoMissed :
    (t : List Process) (i : ℕ) → i < length t → NoMissed t → NoMissed (set t i (cleared (at t i)))
cleared-NoMissed t i lt safe a b =
    rw
      (
        get_or-set t i a (cleared (at t i)) zero_process lt,
        get_or-set t i b (cleared (at t i)) zero_process lt,
      )
      (ground (arith, safe a b))

-- a process that sleeps on itself, when none of its children is a zombie
asleep-NoMissed :
    (t : List Process) (me : ℕ)
    → me < length t
    → ((j : ℕ) → dead_child me (at t j) ≡ false)
    → NoMissed t
    → NoMissed (set t me (record (at t me) { chan = Chan.proc me; state = sleeping }))
asleep-NoMissed t me lt alive safe a b =
    let p = record (at t me) { chan = Chan.proc me; state = sleeping } in
    rw (get_or-set t me a p zero_process lt, get_or-set t me b p zero_process lt)
      (elim (Bool-cases (a == me)) [
        | inl e ↦
            let eq : a ≡ me = ground arith in
            let mine = ap (λ m. dead_child m (at t b)) eq ∙ alive b in rw e (ground (arith, mine))
        | inr ne ↦ rw ne (ground (arith, safe a b))
      ])

-- the kernel after a round of `wait`
abbrev pub after : Waited → Kernel
after (Waited.returned pid k) = k
after (Waited.slept k) = k

abbrev pub asleep_in_wait : Kernel → ℕ → Kernel
asleep_in_wait k me =
    put_proc k me (record (proc_at k me) { chan = Chan.proc me; state = sleeping })

module _ (kernel_end : ℕ) where
  wait_rounds :
      (k : Kernel) (me : ℕ)
      → ((i : ℕ) × IsFirst (dead_child me) k.table zero_process i
          × (wait kernel_end k me ≡ wait_reap kernel_end k i))
        ⊎ (((j : ℕ) × (is_child k.table j (some me) ≡ true))
            × ((j : ℕ) → dead_child me (at k.table j) ≡ false)
            × (wait kernel_end k me
                ≡ ok (
                    if (proc_at k me).killed
                    then Waited.returned none k
                    else Waited.slept (asleep_in_wait k me))))
        ⊎ (((j : ℕ) → is_child k.table j (some me) ≡ false)
            × (wait kernel_end k me ≡ ok (Waited.returned none k)))
  unfolding wait
  wait_rounds k me = elim (wait_scan-cases me k.table 0 false) [
    | inl (d, first, eq) ↦ inl (d, first, rw (eq, wait) (ap (wait_reap kernel_end k) (omega arith)))
    | inr (inl (alive, kids, eq)) ↦ inr (
        inl (
          (elim kids [ inl e ↦ cc | inr kid ↦ kid ]),
          alive,
          rw (eq, wait)
              elim (Bool-cases (proc_at k me).killed) [
                | inl on ↦ rw on refl
                | inr off ↦ rw off refl
              ],
        ))
    | inr (inr (lonely, _, eq)) ↦ inr (inr (lonely, rw (eq, wait) refl))
  ]

  -- What `wait` does about a zombie in slot `i`: it returns the pid that the process had, in the kernel
  -- without that process, or panics if the memory of the process cannot be freed.
  abbrev pub Reaps : Kernel → ℕ → Result Waited → Type 0
  Reaps k i r =
      (BadMemory kernel_end k i × (r ≡ panic))
      ⊎ ((k1 : Kernel) × Reaped kernel_end k i k1
          × (r ≡ ok (Waited.returned (some (proc_at k i).pid) k1)))

  wait_reap-Reaps : (k : Kernel) (i : ℕ) → i < length k.table → Reaps k i (wait_reap kernel_end k i)
  unfolding wait_reap
  wait_reap-Reaps k i lt =
      let finish : Kernel → Result Waited = λ q. ok (Waited.returned (some (proc_at k i).pid) q) in
      elim (deallocate_process_unlocked_lem kernel_end k i lt) [
        | inl (bad, eq) ↦ inl (bad, ap (λ r. r >>= finish) eq)
        | inr (k1, gone, eq) ↦ inr (k1, gone, ap (λ r. r >>= finish) eq)
      ]

  -- A round of `wait` takes the first child that is a zombie, if there is one: it frees the child's
  -- address space, stack and slot, changes nothing else and returns the pid that the child had, or
  -- panics if that memory is not the allocator's. With children of which none is a zombie it
  -- returns -1 when it was killed and sleeps on itself otherwise; with no child it returns -1.
  pub wait_lem :
      (k : Kernel) (me : ℕ)
      → ((i : ℕ) × IsFirst (dead_child me) k.table zero_process i
          × Reaps k i (wait kernel_end k me))
        ⊎ (((j : ℕ) × (is_child k.table j (some me) ≡ true))
            × ((j : ℕ) → dead_child me (at k.table j) ≡ false)
            × (wait kernel_end k me
                ≡ ok (
                    if (proc_at k me).killed
                    then Waited.returned none k
                    else Waited.slept (asleep_in_wait k me))))
        ⊎ (((j : ℕ) → is_child k.table j (some me) ≡ false)
            × (wait kernel_end k me ≡ ok (Waited.returned none k)))
  wait_lem k me = elim (wait_rounds k me) [
    | inl (i, first, eq) ↦
        inl (i, first, subst (Reaps k i) (sym eq) (wait_reap-Reaps k i first.within))
    | inr other ↦ inr other
  ]

  either-NoMissed :
      (b : Bool) (v w : Waited)
      → NoMissed (after v).table
      → NoMissed (after w).table
      → NoMissed (after (if b then v else w)).table
  either-NoMissed true v w hv hw = hv
  either-NoMissed false v w hv hw = hw

  -- Where no process has missed a zombie, none has after a round of `wait` that comes to an end.
  pub wait-NoMissed :
      (k : Kernel) (me : ℕ) (w : Waited)
      → me < length k.table
      → NoMissed k.table
      → wait kernel_end k me ≡ ok w
      → NoMissed (after w).table
  unfolding wait_reap
  wait-NoMissed k me w lt safe h = elim (wait_rounds k me) [
    | inl (d, first, eq) ↦
        let finish : Kernel → Result Waited =
          λ q. ok (Waited.returned (some (proc_at k d).pid) q) in
        let (k1, freed, last) =
          bind-ok (deallocate_process_unlocked kernel_end k d) finish w (sym eq ∙ h) in
        let eq1 =
          ap (λ v. (after v).table) (sym (ok-inj last))
          ∙ deallocate_process_unlocked-table kernel_end k d k1 freed in
        rw eq1 (cleared-NoMissed k.table d first.within safe)
    | inr (inl (kid, alive, eq)) ↦ rw (sym (ok-inj (sym eq ∙ h))) (
        either-NoMissed (proc_at k me).killed (Waited.returned none k)
          (Waited.slept (asleep_in_wait k me)) safe (asleep-NoMissed k.table me lt alive safe))
    | inr (inr (lonely, eq)) ↦ rw (sym (ok-inj (sym eq ∙ h))) safe
  ]
