-- ===== src/Process/Life/Missed.antt =====
-- kernel/process.c: who sleeps in `wait`, and whose children are zombies.
use melon_os.Common.{
  ℕ, ◌≡◌, Bool, true, false, ◌&&◌, Option, some, List, get_or, length, get_or-map, length-map,
  arith,
}
use melon_os.Process.Types.{zero_process, Chan, chan_eq, Process}
use melon_os.Process.Table.{is_sleeping, is_zombie, woken, wakeup_unlocked}
use melon_os.Process.Life.{proc_eq}

abbrev pub at : List Process → ℕ → Process
at t i = get_or t i zero_process

-- `i` sleeps on the channel `c`.
abbrev pub sleeps_on : List Process → ℕ → Chan → Bool
sleeps_on t i c = is_sleeping (at t i).state && chan_eq (at t i).chan c

abbrev pub is_child : List Process → ℕ → Option ℕ → Bool
is_child t j p = proc_eq (at t j).parent p

-- A process that sleeps on itself, as `wait` does, has no child that is a zombie.
abbrev pub NoMissed : List Process → Type 0
NoMissed t =
    (i j : ℕ)
    → sleeps_on t i (Chan.proc i) ≡ true
    → is_child t j (some i) ≡ true
    → is_zombie (at t j).state ≡ false

-- Nobody sleeps on the channel.
abbrev pub Quiet : Chan → List Process → Type 0
Quiet c t = (i : ℕ) → sleeps_on t i c ≡ false

pub at-wakeup :
    (t : List Process) (c : Chan) (i : ℕ) → at (wakeup_unlocked t c) i ≡ woken c (at t i)
unfolding wakeup_unlocked
at-wakeup t c i = get_or-map (woken c) t i zero_process

pub wakeup-length : (t : List Process) (c : Chan) → length (wakeup_unlocked t c) ≡ length t
unfolding wakeup_unlocked
wakeup-length t c = length-map (woken c) t

-- Waking changes neither parents nor who is a zombie.
pub wakeup-child :
    (t : List Process) (c : Chan) (i : ℕ) (p : Option ℕ)
    → is_child (wakeup_unlocked t c) i p ≡ is_child t i p
wakeup-child t c i p = rw (at-wakeup t c i) (ground arith)

pub wakeup-zombie :
    (t : List Process) (c : Chan) (i : ℕ)
    → is_zombie (at (wakeup_unlocked t c) i).state ≡ is_zombie (at t i).state
wakeup-zombie t c i = rw (at-wakeup t c i) (ground arith)

pub wakeup-asleep :
    (t : List Process) (c d : Chan) (i : ℕ)
    → sleeps_on (wakeup_unlocked t c) i d ≡ true
    → (sleeps_on t i d ≡ true) × (sleeps_on (wakeup_unlocked t c) i c ≡ false)
wakeup-asleep t c d i = rw (at-wakeup t c i) (ground arith)

-- Waking leaves nobody asleep on the channel, and puts nobody to sleep.
pub wakeup-Quiet : (t : List Process) (c : Chan) → Quiet c (wakeup_unlocked t c)
wakeup-Quiet t c i = rw (at-wakeup t c i) (ground arith)

pub wakeup-Quiet_other : (t : List Process) (c d : Chan) → Quiet d t → Quiet d (wakeup_unlocked t c)
wakeup-Quiet_other t c d q i = rw (at-wakeup t c i) (ground (arith, q i))

pub wakeup-NoMissed : (t : List Process) (c : Chan) → NoMissed t → NoMissed (wakeup_unlocked t c)
wakeup-NoMissed t c safe i j = rw (at-wakeup t c i, at-wakeup t c j) (ground (arith, safe i j))
