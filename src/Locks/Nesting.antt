-- ===== src/Locks/Nesting.antt =====
-- kernel/trap/ncli.c and kernel/process/spinlock.c: nested sections with interrupts off.
use melon_os.Common.{
  ◌+◌, ◌<◌, ◌≡◌, refl, ◌∙◌, inl, inr, Bool, true, false, ◌&&◌, ◌==◌, if◌then◌else◌, ok, Bool-cases,
  arith,
}
use melon_os.Locks.{Interrupts, push_cli, pop_cli, SpinLock, holding, Locking, lock, unlock}

-- Interrupts are off inside a section.
abbrev pub IsOff : Interrupts → Type 0
IsOff c = 0 < c.ncli → c.enabled ≡ false

-- the flag that is on record: what it was before the first section began
abbrev pub flag : Interrupts → Bool
flag c = if c.ncli == 0 then c.enabled else c.int_on

-- Two states with the same depth, the same flag on record, and interrupts as they should be.
pub record Same (c d : Interrupts) : Type 0 where
  pub depth : d.ncli ≡ c.ncli
  pub enabled : d.enabled ≡ c.enabled
  pub flag : flag d ≡ flag c

pop_cli-Same :
    (c d : Interrupts)
    → IsOff c
    → Same (push_cli c) d
    → (e : Interrupts) × (pop_cli d ≡ ok e) × Same c e
unfolding push_cli pop_cli
pop_cli-Same c d off same =
    let depth : d.ncli ≡ c.ncli + 1 = same.depth in
    let dark : d.enabled ≡ false = same.enabled in
    let kept : flag d ≡ flag c = same.flag ∙ ground arith in
    let e : Interrupts = record { enabled = c.enabled; int_on = d.int_on; ncli = c.ncli } in
    elim (Bool-cases (c.ncli == 0)) [
      | inl outer ↦ (
        e,
        ground (arith, depth, dark, kept, outer),
        record { depth = refl; enabled = refl; flag = ground (arith, outer) },
      )
      | inr inner ↦
          let on_record : d.int_on ≡ c.int_on = ground (arith, depth, kept, inner) in
          let was : c.enabled ≡ false = off (ground (arith, inner)) in
          (
            e,
            ground (arith, depth, dark, was, inner),
            record { depth = refl; enabled = refl; flag = ground (arith, on_record) },
          )
    ]

-- `pop_cli` behind `push_cli` does not panic, and leaves interrupts as they were.
pub pop_cli-push_cli :
    (c : Interrupts) → IsOff c → (d : Interrupts) × (pop_cli (push_cli c) ≡ ok d) × Same c d
pop_cli-push_cli c off =
    pop_cli-Same c (push_cli c) off (record { depth = refl; enabled = refl; flag = refl })

pub push_cli-IsOff : (c : Interrupts) → IsOff (push_cli c)
unfolding push_cli
push_cli-IsOff c h = refl

pub Same-IsOff : (c d : Interrupts) → IsOff c → Same c d → IsOff d
Same-IsOff c d off same h = same.enabled ∙ off (omega (arith, same.depth, h))

Same-trans : (c d e : Interrupts) → Same c d → Same d e → Same c e
Same-trans c d e p q = record {
  depth = q.depth ∙ p.depth;
  enabled = q.enabled ∙ p.enabled;
  flag = q.flag ∙ p.flag;
}

pub push_cli-dark : (c : Interrupts) → (push_cli c).enabled ≡ false
unfolding push_cli
push_cli-dark c = refl

pub holding-Same :
    (lk : SpinLock) (c : Interrupts)
    → IsOff c
    → (d : Interrupts) × (holding lk c ≡ ok (lk.locked && lk.owned, d)) × Same c d
unfolding holding
holding-Same lk c off = let (d, eq, same) = pop_cli-push_cli c off in (d, rw eq refl, same)

-- A lock that is free is taken, one level deeper.
pub lock-free :
    (lk : SpinLock) (c : Interrupts)
    → IsOff c
    → lk.locked ≡ false
    → (c1 : Interrupts) × (lock lk c ≡ Locking.acquired (record { locked = true; owned = true }) c1)
      × Same (push_cli c) c1
unfolding lock
lock-free lk c off free =
    let (c1, eq, same) = holding-Same lk (push_cli c) (push_cli-IsOff c) in
    (c1, rw (eq, free) refl, same)

-- Taking a lock again that the processor has panics.
pub lock-taken :
    (lk : SpinLock) (c : Interrupts)
    → lk.locked ≡ true
    → lk.owned ≡ true
    → lock lk c ≡ Locking.stopped
unfolding lock
lock-taken lk c taken own =
    let (c1, eq, same) = holding-Same lk (push_cli c) (push_cli-IsOff c) in rw (eq, taken, own) refl

pub push_cli-depth : (c : Interrupts) → (push_cli c).ncli ≡ c.ncli + 1
unfolding push_cli
push_cli-depth c = refl

-- A lock that is free is taken with interrupts off, and `unlock` gives it back, with interrupts as they were before;
-- to take it a second time in between panics.
pub unlock-lock :
    (lk : SpinLock) (c : Interrupts)
    → IsOff c
    → lk.locked ≡ false
    → (taken : SpinLock) × (c1 : Interrupts) × (d : Interrupts) × (lock lk c
        ≡ Locking.acquired taken c1)
      × (c1.enabled ≡ false)
      × (lock taken c1 ≡ Locking.stopped)
      × (unlock taken c1 ≡ ok (record { locked = false; owned = false }, d))
      × Same c d
unfolding lock unlock
unlock-lock lk c off free =
    let taken : SpinLock = record { locked = true; owned = true } in
    let (c1, eq1, same1) = holding-Same lk (push_cli c) (push_cli-IsOff c) in
    let off1 = Same-IsOff (push_cli c) c1 (push_cli-IsOff c) same1 in
    let (c2, eq2, same2) = holding-Same taken c1 off1 in
    let (c3, eq3, same3) = holding-Same taken (push_cli c1) (push_cli-IsOff c1) in
    let (d, eq4, same4) = pop_cli-Same c c2 off (Same-trans (push_cli c) c1 c2 same1 same2) in
    (
      taken,
      c1,
      d,
      rw (eq1, free) refl,
      same1.enabled ∙ push_cli-dark c,
      rw eq3 refl,
      rw (eq2, eq4) refl,
      same4,
    )
