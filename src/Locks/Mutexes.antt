-- ===== src/Locks/Mutexes.antt =====
-- kernel/process/mutex.c: a mutex and those who sleep on it.
use melon_os.Common.{ℕ, ◌≡◌, refl, inl, inr, true, Bool-cases}
use melon_os.Process.Types.{Chan}
use melon_os.Process.Life.Missed.{sleeps_on, wakeup-Quiet}
use melon_os.Locks.{MutexState, lock_mutex, unlock_mutex}

module _ (slk : Chan) where
  -- Who sleeps on a mutex waits for a holder.
  abbrev pub NoLost : MutexState → Type 0
  NoLost s = (i : ℕ) → sleeps_on s.table i slk ≡ true → s.locked ≡ true

  -- the rounds of `lock_mutex` and the calls of `unlock_mutex`, in any order
  pub data MutexRun : MutexState → MutexState → Type 0 where
    stop : {s : MutexState} → MutexRun s s
    lock : {s s1 : MutexState} (me : ℕ) → MutexRun (lock_mutex slk s me).1 s1 → MutexRun s s1
    unlock : {s s1 : MutexState} → MutexRun (unlock_mutex slk s) s1 → MutexRun s s1

  lock_mutex-NoLost : (s : MutexState) (me : ℕ) → NoLost s → NoLost (lock_mutex slk s me).1
  unfolding lock_mutex
  lock_mutex-NoLost s me safe = elim (Bool-cases s.locked) [
    | inl on ↦ rw on (λ i h. refl)
    | inr off ↦ rw off (λ i h. refl)
  ]

  unlock_mutex-NoLost : (s : MutexState) → NoLost (unlock_mutex slk s)
  unfolding unlock_mutex
  unlock_mutex-NoLost s i h = cc (wakeup-Quiet s.table slk i, h)

  -- In every run nobody sleeps on a mutex that is free.
  pub MutexRun-NoLost : {s s1 : MutexState} → MutexRun s s1 → NoLost s → NoLost s1
  MutexRun-NoLost stop safe = safe
  MutexRun-NoLost (lock me run) safe = MutexRun-NoLost run (lock_mutex-NoLost _ me safe)
  MutexRun-NoLost (unlock run) safe = MutexRun-NoLost run (unlock_mutex-NoLost _)
