-- ===== src/Process/Life/Orphans.antt =====
-- kernel/process.c: what `exit` leaves in the process table.
use melon_os.Common.{
  ℕ, ◌<◌, ◌≤◌, ◌≡◌, ◌≢◌, ◌∙◌, sym, ap, inl, inr, true, false, ◌==◌, if◌then◌else◌, Option, some,
  List, set, length, get_or-set, Bool-cases, arith,
}
use melon_os.Process.Types.{zero_process, zombie, Chan, Process, Kernel, nproc, proc_at}
use melon_os.Process.Table.{is_running, is_zombie, wakeup_unlocked}
use melon_os.Process.Life.{proc_eq, chan_of, reparent, exit_table}
use melon_os.Process.Life.Missed.{
  at, sleeps_on, is_child, NoMissed, Quiet, wakeup-Quiet, wakeup-NoMissed, wakeup-child,
  wakeup-length,
}
use melon_os.Process.Life.Reparent.{
  child-within, chan_of-proc, proc_eq_refl, proc_eq-same, true≢false, reparent-NoMissed,
  reparent-Quiet, reparent-length, reparent-child,
}

-- What the table holds when a process that is not init and not its own parent exits: the process is a zombie and nobody's
-- parent; its children have init as parent, the others the parent they had; nobody sleeps on its parent, and who
-- sleeps in `wait` has no zombie to reap.
pub record Exited (k : Kernel) (me : ℕ) (t : List Process) : Type 0 where
  pub gone : is_zombie (at t me).state ≡ true
  pub moved : (j : ℕ) → is_child k.table j (some me) ≡ true → is_child t j k.init1 ≡ true
  pub stayed :
      (j : ℕ) (p : Option ℕ)
      → is_child k.table j (some me) ≡ false
      → is_child t j p ≡ is_child k.table j p
  pub awake : Quiet (chan_of (at k.table me).parent) t
  pub orphans : (j : ℕ) → is_child t j (some me) ≡ false
  pub safe : NoMissed t

module _ (k : Kernel) (me : ℕ) where
  abbrev c : Chan
  c = chan_of (at k.table me).parent

  -- the table at the end, and before the last step
  abbrev adopted_table : List Process
  adopted_table = reparent nproc 0 k.init1 me (wakeup_unlocked k.table c)

  abbrev last_table : List Process
  last_table = set adopted_table me (record (at adopted_table me) { state = zombie })

  adopted_table-child :
      length k.table ≤ nproc
      → (j : ℕ) (p : Option ℕ)
      → is_child adopted_table j p
        ≡ (if is_child k.table j (some me) then proc_eq k.init1 p else is_child k.table j p)
  adopted_table-child full j p =
      reparent-child k.init1 me nproc 0 j (wakeup_unlocked k.table c) p
      ∙ ground (
        arith,
        wakeup-child k.table c j p,
        wakeup-child k.table c j (some me),
        child-within k.table j me,
      )

  module _ (within : me < length k.table) where
    last-at :
        (j : ℕ)
        → at last_table j ≡ (
            if j == me then record (at adopted_table me) { state = zombie } else at adopted_table j)
    last-at j =
        let same : length adopted_table ≡ length k.table =
          reparent-length k.init1 me nproc 0 (wakeup_unlocked k.table c)
          ∙ wakeup-length k.table c in
        get_or-set adopted_table me j _ zero_process (omega (arith, same, within))

    last-asleep :
        (j : ℕ) (d : Chan) → sleeps_on last_table j d ≡ true → sleeps_on adopted_table j d ≡ true
    last-asleep j d = rw (last-at j) ground arith

    last-child : (j : ℕ) (p : Option ℕ) → is_child last_table j p ≡ is_child adopted_table j p
    last-child j p = rw (last-at j) ground arith

    last-zombie :
        (j : ℕ)
        → is_zombie (at last_table j).state
          ≡ (if j == me then true else is_zombie (at adopted_table j).state)
    last-zombie j = rw (last-at j) ground arith

    module _ (full : length k.table ≤ nproc) (no_loop : is_child k.table me (some me) ≡ false) where
      adopted_table-Quiet : Quiet c adopted_table
      adopted_table-Quiet =
          reparent-Quiet k.init1 me nproc 0 (wakeup_unlocked k.table c) c (wakeup-Quiet k.table c)

      last-Quiet : Quiet c last_table
      last-Quiet i = elim (Bool-cases (sleeps_on last_table i c)) [
        | inl on ↦ absurd (true≢false (sym (last-asleep i c on) ∙ adopted_table-Quiet i))
        | inr off ↦ off
      ]

      -- nobody who sleeps on itself has `me` as child
      last-unwatched :
          (i : ℕ)
          → sleeps_on last_table i (Chan.proc i) ≡ true
          → is_child last_table me (some i) ≡ false
      last-unwatched i asleep =
          last-child me (some i)
          ∙ adopted_table-child full me (some i)
          ∙ rw no_loop (elim (Bool-cases (is_child k.table me (some i))) [
            | inr off ↦ off
            | inl on ↦
                let eq : c ≡ Chan.proc i = chan_of-proc (at k.table me).parent i on in
                let quiet : sleeps_on last_table i (Chan.proc i) ≡ false =
                  ap (λ d. sleeps_on last_table i d) (sym eq) ∙ last-Quiet i in
                absurd (true≢false (sym asleep ∙ quiet))
          ])

      last-NoMissed : NoMissed k.table → NoMissed last_table
      last-NoMissed safe i j asleep child = elim (Bool-cases (j == me)) [
        | inl e ↦
            let eq : j ≡ me = ground arith in
            absurd (
              true≢false
                (sym child ∙ ap (λ a. is_child last_table a (some i)) eq ∙ last-unwatched i asleep))
        | inr ne ↦
            last-zombie j
            ∙ rw ne (
                reparent-NoMissed k.init1 me nproc 0 (wakeup_unlocked k.table c)
                  (wakeup-NoMissed k.table c safe) i j (last-asleep i (Chan.proc i) asleep)
                  (sym (last-child j (some i)) ∙ child))
      ]

      pub exit_table-Exited :
          k.init1 ≢ some me → NoMissed k.table → Exited k me (exit_table k me).table
      unfolding exit_table
      exit_table-Exited other safe =
          let no : proc_eq (some me) k.init1 ≡ false =
            elim (Bool-cases (proc_eq (some me) k.init1)) [
              | inl e ↦ absurd (other (proc_eq-same (some me) k.init1 e))
              | inr ne ↦ ne
            ] in
          record {
            gone = last-zombie me ∙ ground arith;
            moved = λ j child.
                last-child j k.init1
                ∙ adopted_table-child full j k.init1
                ∙ rw child (proc_eq_refl k.init1);
            stayed = λ j p stranger.
                last-child j p ∙ adopted_table-child full j p ∙ ground (arith, stranger);
            awake = last-Quiet;
            orphans = λ j.
                last-child j (some me) ∙ adopted_table-child full j (some me) ∙ ground (arith, no);
            safe = last-NoMissed safe;
          }

    pub exit_table-idle : is_running (proc_at (exit_table k me) me).state ≡ false
    unfolding exit_table
    exit_table-idle = rw (last-at me) ground arith
