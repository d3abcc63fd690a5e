-- ===== src/Process/Life/Reparent.antt =====
-- kernel/process.c: the loop of `exit` that passes the children to init.
use melon_os.Common.{
  ℕ, suc, zero, ◌+◌, ◌<◌, ◌≡◌, ◌≢◌, refl, ◌∙◌, sym, ap, ◌⊎◌, inl, inr, true, false, ◌&&◌, ◌==◌,
  if◌then◌else◌, Option, none, some, List, [], ◌∷◌, set, length, get_or-set, length-set, Bool-cases,
  arith, ==_refl, ltb, leb,
}
use melon_os.Process.Types.{zero_process, Chan, Process}
use melon_os.Process.Table.{is_zombie, wakeup_unlocked}
use melon_os.Process.Life.{proc_eq, chan_of, adopt, reparent}
use melon_os.Process.Life.Missed.{
  at, sleeps_on, is_child, NoMissed, Quiet, wakeup-Quiet_other, wakeup-asleep, wakeup-child,
  wakeup-zombie, wakeup-length,
}

-- A slot with a parent lies in the table.
pub child-within : (t : List Process) (i me : ℕ) → is_child t i (some me) ≡ true → i < length t
child-within [] i me h = ground arith
child-within (p ∷ t) zero me h = omega arith
child-within (p ∷ t) (suc i) me h = omega (arith, child-within t i me h)

pub chan_of-proc : (p : Option ℕ) (a : ℕ) → proc_eq p (some a) ≡ true → chan_of p ≡ Chan.proc a
chan_of-proc none a h = ground arith
chan_of-proc (some b) a h = ap Chan.proc (ground arith)

pub proc_eq_refl : (p : Option ℕ) → proc_eq p p ≡ true
proc_eq_refl none = refl
proc_eq_refl (some a) = ==_refl a

pub proc_eq-same : (p q : Option ℕ) → proc_eq p q ≡ true → q ≡ p
proc_eq-same p q = ground arith

pub true≢false : true ≢ false
true≢false e = cc

module _ (init1 : Option ℕ) (me : ℕ) where
  -- the slot `i` passed to init, before init is woken
  abbrev passed : List Process → ℕ → List Process
  passed t i = set t i (record (at t i) { parent = init1 })

  at-passed :
      (t : List Process) (i j : ℕ)
      → i < length t
      → at (passed t i) j ≡ (if j == i then record (at t i) { parent = init1 } else at t j)
  at-passed t i j lt = get_or-set t i j _ zero_process lt

  -- the three ways a round goes
  abbrev Adopted : List Process → ℕ → Type 0
  Adopted t i =
      ((is_child t i (some me) ≡ false) × (adopt i init1 me t ≡ t))
      ⊎ ((is_child t i (some me) ≡ true)
          × (is_zombie (at t i).state ≡ false)
          × (adopt i init1 me t ≡ passed t i))
      ⊎ ((is_child t i (some me) ≡ true)
          × (is_zombie (at t i).state ≡ true)
          × (adopt i init1 me t ≡ wakeup_unlocked (passed t i) (chan_of init1)))

  adopted : (t : List Process) (i : ℕ) → Adopted t i
  unfolding adopt
  adopted t i = ground arith

  passed-alive :
      (t : List Process) (i : ℕ)
      → i < length t
      → is_zombie (at t i).state ≡ false
      → NoMissed t
      → NoMissed (passed t i)
  passed-alive t i lt alive safe a b =
      rw (at-passed t i a lt, at-passed t i b lt) ground (arith, safe a b)

  passed-asleep :
      (t : List Process) (i a : ℕ) (c : Chan)
      → i < length t
      → sleeps_on (passed t i) a c ≡ sleeps_on t a c
  passed-asleep t i a c lt = rw (at-passed t i a lt) ground arith

  passed-zombie :
      (t : List Process) (i b : ℕ)
      → i < length t
      → is_zombie (at (passed t i) b).state ≡ is_zombie (at t b).state
  passed-zombie t i b lt = rw (at-passed t i b lt) ground arith

  passed-child :
      (t : List Process) (i b : ℕ) (p : Option ℕ)
      → i < length t
      → is_child (passed t i) b p ≡ (if b == i then proc_eq init1 p else is_child t b p)
  passed-child t i b p lt = rw (at-passed t i b lt) ground arith

  -- who sleeps on itself after init is woken is not init
  not-init :
      (t : List Process) (a : ℕ)
      → sleeps_on (wakeup_unlocked t (chan_of init1)) a (Chan.proc a) ≡ true
      → proc_eq init1 (some a) ≡ false
  not-init t a h =
      let (_, quiet) = wakeup-asleep t (chan_of init1) (Chan.proc a) a h in
      elim (Bool-cases (proc_eq init1 (some a))) [
        | inl e ↦
            let eq = chan_of-proc init1 a e in
            absurd (true≢false (sym (rw eq at h) ∙ (rw eq at quiet)))
        | inr ne ↦ ne
      ]

  passed-dead :
      (t : List Process) (i : ℕ)
      → i < length t
      → NoMissed t
      → NoMissed (wakeup_unlocked (passed t i) (chan_of init1))
  passed-dead t i lt safe a b asleep child =
      let t1 = passed t i in
      let c = chan_of init1 in
      let (before, _) = wakeup-asleep t1 c (Chan.proc a) a asleep in
      let stranger = not-init t1 a asleep in
      let child1 = sym (wakeup-child t1 c b (some a)) ∙ child in
      rw (wakeup-zombie t1 c b, passed-zombie t i b lt) ground
        (arith, safe a b, passed-asleep t i a (Chan.proc a) lt, passed-child t i b (some a) lt)

  adopt-NoMissed : (t : List Process) (i : ℕ) → NoMissed t → NoMissed (adopt i init1 me t)
  adopt-NoMissed t i safe = elim (adopted t i) [
    | inl (_, eq) ↦ rw eq safe
    | inr (inl (child, alive, eq)) ↦ rw eq (passed-alive t i (child-within t i me child) alive safe)
    | inr (inr (child, dead, eq)) ↦ rw eq (passed-dead t i (child-within t i me child) safe)
  ]

  adopt-Quiet : (t : List Process) (i : ℕ) (d : Chan) → Quiet d t → Quiet d (adopt i init1 me t)
  adopt-Quiet t i d quiet = elim (adopted t i) [
    | inl (_, eq) ↦ rw eq quiet
    | inr (inl (child, _, eq)) ↦
        rw eq (λ a. passed-asleep t i a d (child-within t i me child) ∙ quiet a)
    | inr (inr (child, _, eq)) ↦ rw eq (
        wakeup-Quiet_other (passed t i) (chan_of init1) d
          (λ a. passed-asleep t i a d (child-within t i me child) ∙ quiet a))
  ]

  adopt-length : (t : List Process) (i : ℕ) → length (adopt i init1 me t) ≡ length t
  adopt-length t i = elim (adopted t i) [
    | inl (_, eq) ↦ ap length eq
    | inr (inl (_, _, eq)) ↦ ap length eq ∙ length-set t i _
    | inr (inr (_, _, eq)) ↦
        ap length eq ∙ wakeup-length (passed t i) (chan_of init1) ∙ length-set t i _
  ]

  -- the parent of a slot after the round for the slot `i`
  adopt-child :
      (t : List Process) (i j : ℕ) (p : Option ℕ)
      → is_child (adopt i init1 me t) j p
        ≡ (if (j == i) && is_child t i (some me) then proc_eq init1 p else is_child t j p)
  adopt-child t i j p = elim (adopted t i) [
    | inl (stranger, eq) ↦ rw (eq, stranger) ground arith
    | inr (inl (child, _, eq)) ↦
        rw (eq, child) (passed-child t i j p (child-within t i me child) ∙ ground arith)
    | inr (inr (child, _, eq)) ↦
        rw (eq, child)
          (wakeup-child (passed t i) (chan_of init1) j p
            ∙ passed-child t i j p (child-within t i me child)
            ∙ ground arith)
  ]

  pub reparent-NoMissed :
      (n i : ℕ) (t : List Process) → NoMissed t → NoMissed (reparent n i init1 me t)
  unfolding reparent
  reparent-NoMissed zero i t safe = safe
  reparent-NoMissed (suc n) i t safe =
      reparent-NoMissed n (i + 1) (adopt i init1 me t) (adopt-NoMissed t i safe)

  pub reparent-Quiet :
      (n i : ℕ) (t : List Process) (d : Chan) → Quiet d t → Quiet d (reparent n i init1 me t)
  unfolding reparent
  reparent-Quiet zero i t d quiet = quiet
  reparent-Quiet (suc n) i t d quiet =
      reparent-Quiet n (i + 1) (adopt i init1 me t) d (adopt-Quiet t i d quiet)

  pub reparent-length : (n i : ℕ) (t : List Process) → length (reparent n i init1 me t) ≡ length t
  unfolding reparent
  reparent-length zero i t = refl
  reparent-length (suc n) i t = reparent-length n (i + 1) (adopt i init1 me t) ∙ adopt-length t i

  -- Who has the parent `p` after the loop: from the slots it visits, the children of `me` pass to
  -- init.
  pub reparent-child :
      (n i j : ℕ) (t : List Process) (p : Option ℕ)
      → is_child (reparent n i init1 me t) j p ≡ (
          if leb i j && ltb j (i + n) && is_child t j (some me)
          then proc_eq init1 p
          else is_child t j p)
  unfolding reparent
  reparent-child zero i j t p = ground arith
  reparent-child (suc n) i j t p =
      rw
        (
          reparent-child n (i + 1) j (adopt i init1 me t) p,
          adopt-child t i j p,
          adopt-child t i j (some me),
        )
        elim (Bool-cases (j == i)) [
          | inl e ↦
              ground (arith, ap (λ k. is_child t k (some me)) (let k : j ≡ i = ground arith in k))
          | inr ne ↦ ground arith
        ]
