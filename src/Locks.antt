-- ===== src/Locks.antt =====
-- kernel/trap/ncli.c, kernel/process/spinlock.c and kernel/process/mutex.c, on one processor.
pub mod Nesting
pub mod Mutexes
mod Tests
use melon_os.Common.{
  ℕ, ◌+◌, ◌-◌, Bool, true, false, ◌&&◌, not, ◌==◌, if◌then◌else◌, List, Result, ok, panic, ◌>>=◌,
  ◌>>◌, kassert, set, get_or,
}
use melon_os.Process.Types.{Process, Chan, sleeping, zero_process}
use melon_os.Process.Table.{wakeup_unlocked}

-- The interrupt flag of the processor, and what `cpu` keeps of it. `ncli` is never below 0, since
-- `pop_cli` panics there.
pub record Interrupts : Type 0 where
  pub enabled : Bool
  pub int_on : Bool
  pub ncli : ℕ

unfoldable pub push_cli : Interrupts → Interrupts
push_cli c = record {
  enabled = false;
  int_on = if c.ncli == 0 then c.enabled else c.int_on;
  ncli = c.ncli + 1;
}

-- `this_cpu` panics with interrupts on.
unfoldable pub pop_cli : Interrupts → Result Interrupts
pop_cli c = do
  kassert (not c.enabled)
  kassert (not (c.ncli == 0))
  let n = c.ncli - 1
  ok (record c { ncli = n; enabled = if n == 0 && c.int_on then true else c.enabled })

-- A spin lock; `owned` says that its `cpu` is the processor.
pub record SpinLock : Type 0 where
  pub locked : Bool
  pub owned : Bool

unfoldable pub holding : SpinLock → Interrupts → Result (Bool × Interrupts)
holding lk c = pop_cli (push_cli c) >>= λ c1. ok (lk.locked && lk.owned, c1)

-- How a call of `lock` goes: it stops in `panic`, goes round for ever, or gets the lock.
pub data Locking : Type 0 where
  stopped spins : Locking
  acquired : SpinLock → Interrupts → Locking

-- `lock` behind the call of `holding`
abbrev take_lock : SpinLock → Result (Bool × Interrupts) → Locking
take_lock lk panic = Locking.stopped
take_lock lk (ok (held, c)) =
    if held
    then Locking.stopped
    else if lk.locked
    then Locking.spins
    else Locking.acquired (record { locked = true; owned = true }) c

unfoldable pub lock : SpinLock → Interrupts → Locking
lock lk c = take_lock lk (holding lk (push_cli c))

unfoldable pub unlock : SpinLock → Interrupts → Result (SpinLock × Interrupts)
unlock lk c = do
  (held, c1) ← holding lk c
  kassert held
  c2 ← pop_cli c1
  ok (record { locked = false; owned = false }, c2)

-- A mutex and the process table. The spin lock of the mutex makes each round one step.
pub record MutexState : Type 0 where
  pub locked : Bool
  pub pid : ℕ
  pub table : List Process

module _ (slk : Chan) where
  -- a round of the loop of `lock_mutex` by the process in slot `me`: whether it has the mutex
  unfoldable pub lock_mutex : MutexState → ℕ → Bool × MutexState
  lock_mutex s me =
      let p = get_or s.table me zero_process in
      if s.locked
      then (false, record s { table = set s.table me (record p { chan = slk; state = sleeping }) })
      else (true, record s { locked = true; pid = p.pid })

  unfoldable pub unlock_mutex : MutexState → MutexState
  unlock_mutex s = record { locked = false; pid = 0; table = wakeup_unlocked s.table slk }
