-- ===== src/Process/Table/Slots.antt =====
-- kernel/process.c: what `allocate_process` does to the process table.
use melon_os.Common.{
  if-off, ℕ, ◌+◌, ◌-◌, ◌<◌, ◌≤◌, ◌≡◌, ◌≢◌, ◌⊎◌, refl, sym, ◌∙◌, ap, subst, inl, inr, Bool, not,
  true, false, ◌==◌, ltb, if◌then◌else◌, Option, none, some, ok, panic, get_or, set,
  get_or-set_self, get_or-set_ne, get_or-drop, length, length-drop, length-set, drop, find_from,
  find_from-some, find_from-none, Bool-cases, Option-cases, arith,
}
use melon_os.Memory.Palloc.{palloc}
use melon_os.Process.Types.{
  nproc, zero_process, created, unused, Process, Kernel, proc_at, put_proc,
}
use melon_os.Process.Table.{
  is_unused, get_unused_process, no_stack, new_stack, setup_process_stack, claim_slot,
  allocate_process,
}

-- The search finds the first slot, from slot 1 on, that is not used.
pub get_unused_process_lem :
    (k : Kernel)
    → ((i : ℕ) × (1 ≤ i)
        × (i < length k.table)
        × (is_unused (proc_at k i).state ≡ true)
        × ((j : ℕ) → 1 ≤ j → j < i → is_unused (proc_at k j).state ≡ false)
        × (get_unused_process k ≡ some i))
      ⊎ (((j : ℕ) → 1 ≤ j → j < length k.table → is_unused (proc_at k j).state ≡ false)
          × (get_unused_process k ≡ none))
unfolding get_unused_process
get_unused_process_lem k =
    let test : Process → Bool = λ p. is_unused p.state in
    let t = k.table in
    let seen : (j : ℕ)
        → 1 ≤ j
        → test (get_or (drop 1 t) (j - 1) zero_process) ≡ test (get_or t j zero_process) =
      λ j le.
        ap test (get_or-drop 1 t (j - 1) zero_process)
        ∙ ap (λ k. test (get_or t k zero_process))
            (let e : 1 + (j - 1) ≡ j = omega (arith, le) in e) in
    elim (Option-cases (find_from test (drop 1 t) 1)) [
      | inl eq ↦
          let past = find_from-none test (drop 1 t) zero_process 1 eq in
          inr
            (λ j le lt. sym (seen j le) ∙ past (j - 1) (omega (arith, length-drop 1 t, le, lt)), eq)
      | inr (i, eq) ↦
          let (d, place, first) = find_from-some test (drop 1 t) zero_process 1 i eq in
          inl (
            i,
            omega arith,
            omega (arith, first.within, length-drop 1 t),
            sym (seen i (omega arith))
                ∙ ap (λ k. test (get_or (drop 1 t) k zero_process))
                    (let e : i - 1 ≡ d = omega (arith, place) in e)
                ∙ first.passes,
            (λ j le lt. sym (seen j le) ∙ first.earlier (j - 1) (omega (arith, place, le, lt))),
            eq,
          )
    ]

-- the slot, the next pid and the other slots after `setup_process_stack`
abbrev pub no_page : Kernel → Bool
no_page k = (palloc k.memory).0 == 0

record Stacked (k : Kernel) (i : ℕ) (done : Bool) (k1 : Kernel) : Type 0 where
  done_iff : done ≡ not (no_page k)
  pid : (proc_at k1 i).pid ≡ (proc_at k i).pid
  next : k1.nextpid ≡ k.nextpid
  state : (proc_at k1 i).state ≡ (if no_page k then unused else (proc_at k i).state)
  others : (j : ℕ) → j ≢ i → proc_at k1 j ≡ proc_at k j

abbrev StackedPair : Kernel → ℕ → Bool × Kernel → Type 0
StackedPair k i (done, k1) = Stacked k i done k1

if-on {ℓ} : {A : Type ℓ} {b : Bool} (x y : A) → b ≡ true → (if b then x else y) ≡ x
if-on x y h = rw h refl

put-Stacked :
    (k : Kernel) (i : ℕ) (q : Process) (k1 : Kernel)
    → i < length k.table
    → k1.table ≡ set k.table i q
    → k1.nextpid ≡ k.nextpid
    → q.pid ≡ (proc_at k i).pid
    → q.state ≡ (if no_page k then unused else (proc_at k i).state)
    → Stacked k i (not (no_page k)) k1
put-Stacked k i q k1 lt table next pid state =
    let here : proc_at k1 i ≡ q =
      ap (λ t. get_or t i zero_process) table ∙ get_or-set_self k.table i q zero_process lt in
    record {
      done_iff = refl;
      pid = ap (λ r. r.pid) here ∙ pid;
      next = next;
      state = ap (λ r. r.state) here ∙ state;
      others = λ j ne.
          ap (λ t. get_or t j zero_process) table
          ∙ get_or-set_ne k.table i j q zero_process (λ e. ne (sym e));
    }

setup_process_stack-Stacked :
    (trapret forkret : ℕ) (k : Kernel) (i : ℕ)
    → i < length k.table
    → (let (done, k1) = setup_process_stack trapret forkret k i in Stacked k i done k1)
unfolding setup_process_stack
setup_process_stack-Stacked trapret forkret k i lt =
    let bad = no_stack trapret forkret k i (palloc k.memory).1 in
    let good = new_stack trapret forkret k i (palloc k.memory).0 (palloc k.memory).1 in
    elim (Bool-cases (no_page k)) [
      | inl none1 ↦ subst (StackedPair k i) (sym (if-on (false, bad) (true, good) none1)) (
          subst (λ b. Stacked k i b bad) (ap not none1)
            (put-Stacked k i _ bad lt refl refl refl
              (sym (if-on unused (proc_at k i).state none1))))
      | inr page ↦ subst (StackedPair k i) (sym (if-off (false, bad) (true, good) page)) (
          subst (λ b. Stacked k i b good) (ap not page)
            (put-Stacked k i _ good lt refl refl refl
              (sym (if-off unused (proc_at k i).state page))))
    ]

-- the state and the pid that a slot has been given, with the next pid and the slots beside it
pub record Claimed (k : Kernel) (i : ℕ) (k1 : Kernel) : Type 0 where
  pub pid : (proc_at k1 i).pid ≡ k.nextpid
  pub next : k1.nextpid ≡ k.nextpid + 1
  pub state : (proc_at k1 i).state ≡ (if no_page k then unused else created)
  pub others : (j : ℕ) → j ≢ i → proc_at k1 j ≡ proc_at k j

abbrev ClaimedPair : Kernel → ℕ → Option ℕ × Kernel → Type 0
ClaimedPair k i (o, k1) = (o ≡ (if no_page k then none else some i)) × Claimed k i k1

off_of : (b : Bool) → true ≡ not b → b ≡ false
off_of b h = ground arith

on_of : (b : Bool) → false ≡ not b → b ≡ true
on_of b h = ground arith

-- `claim_slot` behind the new state and pid
claimed :
    (k k1 : Kernel) (i : ℕ) (r : Bool × Kernel)
    → no_page k1 ≡ no_page k
    → k1.nextpid ≡ k.nextpid + 1
    → (proc_at k1 i).pid ≡ k.nextpid
    → (proc_at k1 i).state ≡ created
    → ((j : ℕ) → j ≢ i → proc_at k1 j ≡ proc_at k j)
    → StackedPair k1 i r
    → ClaimedPair k i (if r.0 then (some i, r.1) else (none, r.1))
claimed k k1 i (true, k2) memory next pid state others st =
    let have : no_page k ≡ false = sym memory ∙ off_of (no_page k1) st.done_iff in
    (
      sym (if-off none (some i) have),
      record {
        pid = st.pid ∙ pid;
        next = st.next ∙ next;
        state =
            st.state
            ∙ if-off unused (proc_at k1 i).state (memory ∙ have)
            ∙ state
            ∙ sym (if-off unused created have);
        others = λ j ne. st.others j ne ∙ others j ne;
      },
    )
claimed k k1 i (false, k2) memory next pid state others st =
    let lack : no_page k ≡ true = sym memory ∙ on_of (no_page k1) st.done_iff in
    (
      sym (if-on none (some i) lack),
      record {
        pid = st.pid ∙ pid;
        next = st.next ∙ next;
        state =
            st.state
            ∙ if-on unused (proc_at k1 i).state (memory ∙ lack)
            ∙ sym (if-on unused created lack);
        others = λ j ne. st.others j ne ∙ others j ne;
      },
    )

claim_slot-Claimed :
    (trapret forkret : ℕ) (k : Kernel) (i : ℕ)
    → i < length k.table
    → (let (o, k1) = claim_slot trapret forkret k i in
        (o ≡ (if no_page k then none else some i)) × Claimed k i k1)
unfolding claim_slot
claim_slot-Claimed trapret forkret k i lt =
    let p = record (proc_at k i) { state = created; pid = k.nextpid } in
    let k1 = put_proc (record k { nextpid = k.nextpid + 1 }) i p in
    let lt1 : i < length k1.table = subst (λ n. i < n) (sym (length-set k.table i p)) lt in
    let st = setup_process_stack-Stacked trapret forkret k1 i lt1 in
    let here : proc_at k1 i ≡ p = get_or-set_self k.table i p zero_process lt in
    claimed k k1 i (setup_process_stack trapret forkret k1 i) refl refl (ap (λ r. r.pid) here)
      (ap (λ r. r.state) here) (λ j ne. get_or-set_ne k.table i j p zero_process (λ e. ne (sym e)))
      st

-- `allocate_process` panics once 64 pids have been given. Else it fails with no slot free, or takes the first
-- free slot from slot 1 on and gives it the next pid; the slot stays unused if there is no page for
-- its stack.
pub allocate_process_lem :
    (trapret forkret : ℕ) (k : Kernel)
    → ((nproc < k.nextpid) × (allocate_process trapret forkret k ≡ panic))
      ⊎ ((k.nextpid ≤ nproc)
          × ((j : ℕ) → 1 ≤ j → j < length k.table → is_unused (proc_at k j).state ≡ false)
          × (allocate_process trapret forkret k ≡ ok (none, k)))
      ⊎ ((k.nextpid ≤ nproc)
          × (i : ℕ) × (1 ≤ i)
          × (is_unused (proc_at k i).state ≡ true)
          × ((j : ℕ) → 1 ≤ j → j < i → is_unused (proc_at k j).state ≡ false)
          × (k1 : Kernel) × Claimed k i k1
          × (allocate_process trapret forkret k ≡ ok ((if no_page k then none else some i), k1)))
unfolding allocate_process
allocate_process_lem trapret forkret k = elim (Bool-cases (ltb nproc k.nextpid)) [
  | inl over ↦ inl (ground arith, rw over refl)
  | inr under ↦ elim (get_unused_process_lem k) [
    | inr (full, eq) ↦ inr (inl (ground arith, full, rw (under, eq, allocate_process) refl))
    | inl (i, le, lt, free, first, eq) ↦
        let (result, claimed) = claim_slot-Claimed trapret forkret k i lt in
        let k1 = (claim_slot trapret forkret k i).1 in
        inr (
          inr (
            ground arith,
            i,
            le,
            free,
            first,
            k1,
            claimed,
            rw (under, eq, allocate_process) (ap (λ o. ok (o, k1)) result),
          ))
  ]
]
