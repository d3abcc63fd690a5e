-- ===== src/Locks/Tests.antt =====
-- A lock, and a mutex that is held while another process asks for it.
use melon_os.Common.{zero, suc, ◌≡◌, refl, true, false, [], ◌∷◌, ok, arith}
use melon_os.Process.Types.{Chan, zero_process}
use melon_os.Locks.{Interrupts, SpinLock, Locking, lock, unlock, MutexState, lock_mutex}
use melon_os.Locks.Nesting.{Same, unlock-lock}
use melon_os.Locks.Mutexes.{NoLost, MutexRun, MutexRun-NoLost}

abbrev user : Interrupts
user = record { enabled = true; int_on = false; ncli = 0 }

abbrev free_lock : SpinLock
free_lock = record { locked = false; owned = false }

unlock-lock_example :
    (taken : SpinLock) × (c1 : Interrupts) × (d : Interrupts) × (lock free_lock user
      ≡ Locking.acquired taken c1)
    × (c1.enabled ≡ false)
    × (lock taken c1 ≡ Locking.stopped)
    × (unlock taken c1 ≡ ok (record { locked = false; owned = false }, d))
    × Same user d
unlock-lock_example = unlock-lock free_lock user (λ h. absurd (omega (arith, h))) refl

abbrev slk : Chan
slk = Chan.object 64

abbrev free_mutex : MutexState
free_mutex = record { locked = false; pid = 0; table = zero_process ∷ zero_process ∷ [] }

free_mutex-NoLost : NoLost slk free_mutex
free_mutex-NoLost zero h = cc h
free_mutex-NoLost (suc zero) h = cc h
free_mutex-NoLost (suc (suc i)) h = cc h

abbrev contended : MutexState
contended = (lock_mutex slk (lock_mutex slk free_mutex 0).1 1).1

contention : MutexRun slk free_mutex contended
contention = MutexRun.lock 0 (MutexRun.lock 1 MutexRun.stop)

MutexRun-NoLost_example : NoLost slk contended
MutexRun-NoLost_example = MutexRun-NoLost slk contention free_mutex-NoLost
