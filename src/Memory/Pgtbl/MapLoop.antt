-- ===== src/Memory/Pgtbl/MapLoop.antt =====
-- The loop of `map_pages` over a range of pages.
use melon_os.Common.{
  ℕ, zero, suc, ◌+◌, ◌-◌, ◌*◌, ◌/◌, ◌%◌, ◌<◌, ◌≤◌, ◌^◌, ◌≡◌, ◌∙◌, ◌⊎◌, inl, inr, List, [], ◌∷◌,
  ◌&&◌, if◌then◌else◌, true, false, Result, ok, Bool, arith, Bool-cases, ltb, leb, refl, subst, ap,
}
use melon_os.Memory.Layout.{page_sz}
use melon_os.Memory.Palloc.{KernelMem}
use melon_os.Memory.Palloc.FreeList.{IsFree}
use melon_os.Memory.Pgtbl.{new_pte, map_page, map_loop}
use melon_os.Memory.Pgtbl.Translate.{dir_index, dir_entry, present}
use melon_os.Memory.Pgtbl.Tables.{IsPgdir}
use melon_os.Memory.Pgtbl.Walk.{walk-present, walk-new, walk-none}
use melon_os.Memory.Pgtbl.Map.{page_entry, Mapped, map_page_lem}

-- What a run over `n` pages comes to: all are mapped, or memory ran out after fewer.
abbrev pub MapOutcome :
    ℕ → KernelMem → ℕ → ℕ → ℕ → ℕ → ℕ → List ℕ → Result (Bool × KernelMem) → Type 0
MapOutcome e k pgdir n vp pa perm free r =
    ((k' : KernelMem) × (r ≡ ok (true, k')) × Mapped e k k' pgdir vp n pa perm free)
    ⊎ ((k' : KernelMem) × (done : ℕ) × (done < n)
        × (r ≡ ok (false, k'))
        × Mapped e k k' pgdir vp done pa perm free
        × IsFree e k' [])

Mapped-zero :
    (e : ℕ) (k : KernelMem) (pgdir vp pa perm : ℕ) (free : List ℕ)
    → IsFree e k free
    → IsPgdir e k.mem pgdir free
    → Mapped e k k pgdir vp 0 pa perm free
Mapped-zero e k pgdir vp pa perm free is wf = record {
  left = free;
  is_free = is;
  wf = wf;
  fewer = λ x n. n;
  entries = λ p h. let none_in : (leb vp p && ltb p (vp + 0)) ≡ false = ground arith in rw none_in;
}

Mapped-suc :
    (e : ℕ) (k k1 k2 : KernelMem) (pgdir vp done pa perm : ℕ) (free : List ℕ)
    → (m : Mapped e k k1 pgdir vp 1 pa perm free)
    → Mapped e k1 k2 pgdir (vp + 1) done (pa + page_sz) perm m.left
    → Mapped e k k2 pgdir vp (suc done) pa perm free
Mapped-suc e k k1 k2 pgdir vp done pa perm free m n = record {
  left = n.left;
  is_free = n.is_free;
  wf = n.wf;
  fewer = λ x h. n.fewer x (m.fewer x h);
  entries = λ p h. n.entries p h ∙ join p (m.entries p h);
}
  where
    join :
        (p : ℕ)
        → page_entry k1.mem pgdir p ≡ (
            if leb vp p && ltb p (vp + 1)
            then new_pte (pa + (p - vp) * page_sz) perm
            else page_entry k.mem pgdir p)
        → (if leb (vp + 1) p && ltb p (vp + 1 + done)
            then new_pte (pa + page_sz + (p - (vp + 1)) * page_sz) perm
            else page_entry k1.mem pgdir p)
          ≡ (if leb vp p && ltb p (vp + suc done)
              then new_pte (pa + (p - vp) * page_sz) perm
              else page_entry k.mem pgdir p)
    join p first = elim (Bool-cases (leb (vp + 1) p && ltb p (vp + 1 + done))) [
      | inl later ↦
          let whole : (leb vp p && ltb p (vp + suc done)) ≡ true = ground arith in
          rw (later, whole) (ap (λ x. new_pte x perm) (ground arith))
      | inr not_later ↦ rw not_later (ground arith)
    ]

map_page_cases :
    (e : ℕ) (k : KernelMem) (pgdir va pa perm : ℕ) (free : List ℕ)
    → va < 2 ^ 32
    → pa % page_sz ≡ 0
    → pa < 2 ^ 32
    → perm < page_sz
    → va % page_sz ≡ 0
    → present (page_entry k.mem pgdir (va / page_sz)) ≡ false
    → IsFree e k free
    → IsPgdir e k.mem pgdir free
    → ((k' : KernelMem) × (map_page k pgdir va pa perm ≡ ok (true, k'))
        × Mapped e k k' pgdir (va / page_sz) 1 pa perm free)
      ⊎ ((map_page k pgdir va pa perm ≡ ok (false, k)) × IsFree e k [])
unfolding map_page
map_page_cases e k pgdir va pa perm free h al bound hp val absent is wf =
    elim (Bool-cases (present (dir_entry k.mem pgdir (dir_index va)))) [
      | inl on ↦ inl (
          map_page_lem e k pgdir va pa perm free h al bound hp val absent
            (walk-present e k pgdir va h free is wf on))
      | inr off ↦ by_free free is wf off
    ]
  where
    by_free :
        (free : List ℕ)
        → IsFree e k free
        → IsPgdir e k.mem pgdir free
        → present (dir_entry k.mem pgdir (dir_index va)) ≡ false
        → ((k' : KernelMem) × (map_page k pgdir va pa perm ≡ ok (true, k'))
            × Mapped e k k' pgdir (va / page_sz) 1 pa perm free)
          ⊎ ((map_page k pgdir va pa perm ≡ ok (false, k)) × IsFree e k [])
    by_free [] is wf off = inr (rw (walk-none e k pgdir va h is off), is)
    by_free (x ∷ xs) is wf off = inl (
        map_page_lem e k pgdir va pa perm (x ∷ xs) h al bound hp val absent
          (walk-new e k pgdir va h x xs is wf off))

later_absent :
    (e : ℕ) (k k1 : KernelMem) (pgdir vp pa perm : ℕ) (free : List ℕ) (p : ℕ)
    → vp + 1 ≤ p
    → p < 2 ^ 20
    → Mapped e k k1 pgdir vp 1 pa perm free
    → present (page_entry k.mem pgdir p) ≡ false
    → present (page_entry k1.mem pgdir p) ≡ false
later_absent e k k1 pgdir vp pa perm free p lo hi m absent =
    let outside : (leb vp p && ltb p (vp + 1)) ≡ false = ground arith in
    let kept = m.entries p hi in rw (kept, outside) absent

MapOutcome-suc :
    (e n : ℕ) (k k1 : KernelMem) (pgdir vp pa perm : ℕ) (free : List ℕ)
    (r : Result (Bool × KernelMem))
    → (m : Mapped e k k1 pgdir vp 1 pa perm free)
    → MapOutcome e k1 pgdir n (vp + 1) (pa + page_sz) perm m.left r
    → MapOutcome e k pgdir (suc n) vp pa perm free r
MapOutcome-suc e n k k1 pgdir vp pa perm free r m (inl (k2, eq, m2)) =
    inl (k2, eq, Mapped-suc e k k1 k2 pgdir vp n pa perm free m m2)
MapOutcome-suc e n k k1 pgdir vp pa perm free r m (inr (k2, done, lt, eq, m2, empty)) =
    inr (k2, suc done, omega arith, eq, Mapped-suc e k k1 k2 pgdir vp done pa perm free m m2, empty)

-- The loop over `n` pages that are not mapped does not panic: it maps all of them, or stops after
-- fewer because no page is left for a table.
pub map_loop_lem :
    (e n : ℕ) (k : KernelMem) (pgdir vp pa perm : ℕ) (free : List ℕ)
    → vp + n ≤ 2 ^ 20
    → pa % page_sz ≡ 0
    → pa + n * page_sz ≤ 2 ^ 32
    → perm < page_sz
    → ((p : ℕ) → vp ≤ p → p < vp + n → present (page_entry k.mem pgdir p) ≡ false)
    → IsFree e k free
    → IsPgdir e k.mem pgdir free
    → MapOutcome e k pgdir n vp pa perm free
        (map_loop n k pgdir (vp * page_sz % 2 ^ 32) (pa % 2 ^ 32) perm)
unfolding map_loop
map_loop_lem e zero k pgdir vp pa perm free hv al hpa hp absent is wf =
    inl (k, refl, Mapped-zero e k pgdir vp pa perm free is wf)
map_loop_lem e (suc n) k pgdir vp pa perm free hv al hpa hp absent is wf =
    let va_eq : vp * page_sz % 2 ^ 32 ≡ vp * page_sz = omega arith in
    let vp_eq : vp * page_sz / page_sz ≡ vp = omega arith in
    let pa_eq : pa % 2 ^ 32 ≡ pa = omega arith in
    let va_next : (vp * page_sz + page_sz) % 2 ^ 32 ≡ (vp + 1) * page_sz % 2 ^ 32 = omega arith in
    let first =
      map_page_cases e k pgdir (vp * page_sz) pa perm free (omega arith) al (omega arith) hp
        (omega arith) (rw vp_eq (absent vp (omega arith) (omega arith))) is wf in
    rw (va_eq, pa_eq)
      (elim first [
        | inl (k1, eq, m0) ↦
            let m = subst (λ v. Mapped e k k1 pgdir v 1 pa perm free) vp_eq m0 in
            rw (eq, va_next)
              (MapOutcome-suc e n k k1 pgdir vp pa perm free _ m (
                map_loop_lem e n k1 pgdir (vp + 1) (pa + page_sz) perm m.left (omega arith)
                  (omega arith) (omega arith) hp
                  (λ p lo hi.
                    later_absent e k k1 pgdir vp pa perm free p lo (omega arith) m
                      (absent p (omega arith) (omega arith)))
                  m.is_free m.wf))
        | inr (eq, empty) ↦
            rw eq
              (inr (k, 0, omega arith, refl, Mapped-zero e k pgdir vp pa perm free is wf, empty))
      ])
