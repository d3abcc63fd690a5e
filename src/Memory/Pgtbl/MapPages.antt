-- ===== src/Memory/Pgtbl/MapPages.antt =====
-- `map_pages` against the processor's translation of addresses.
use melon_os.Common.{
  ℕ, ◌+◌, ◌-◌, ◌*◌, ◌/◌, ◌%◌, ◌<◌, ◌≤◌, ◌^◌, ◌≡◌, ◌∙◌, inl, inr, List, [], ◌&&◌, if◌then◌else◌,
  true, false, Store, ◌||◌, some, none, ok, Bool, arith, Bool-cases, ltb, leb, refl, sym, ap,
}
use melon_os.Memory.Layout.{page_sz}
use melon_os.Memory.Palloc.{KernelMem}
use melon_os.Memory.Palloc.FreeList.{IsFree}
use melon_os.Memory.Pgtbl.{map_pages}
use melon_os.Memory.Pgtbl.Translate.{present, frame, translate}
use melon_os.Memory.Pgtbl.Tables.{IsPgdir, IsPgdir-cong}
use melon_os.Memory.Mmu.{page_aligndown, page_aligndown_lem}
use melon_os.Memory.Pgtbl.{VMap}
use melon_os.Memory.Pgtbl.Map.{page_entry, Mapped, new_pte_lem}
use melon_os.Memory.Pgtbl.MapLoop.{MapOutcome, map_loop_lem}

-- `n` whole pages of virtual addresses from the page number `vp` on, at frames from `pa` on
abbrev pub vmap : ℕ → ℕ → ℕ → ℕ → VMap
vmap vp n pa perm = record {
  virt = vp * page_sz;
  pstart = pa;
  pend = (pa + n * page_sz) % 2 ^ 32;
  perm = perm;
}

pub map_pages-outcome :
    (e n : ℕ) (k : KernelMem) (pgdir vp pa perm : ℕ) (free : List ℕ)
    → vp + n ≤ 2 ^ 20
    → vp < 2 ^ 20
    → n < 2 ^ 20
    → pa % page_sz ≡ 0
    → pa < 2 ^ 32
    → pa + n * page_sz ≤ 2 ^ 32
    → perm < page_sz
    → ((p : ℕ) → vp ≤ p → p < vp + n → present (page_entry k.mem pgdir p) ≡ false)
    → IsFree e k free
    → IsPgdir e k.mem pgdir free
    → MapOutcome e k pgdir n vp pa perm free (map_pages k pgdir (vmap vp n pa perm))
unfolding map_pages
map_pages-outcome e n k pgdir vp pa perm free hv hvp hn al hpb hpa hp absent is wf =
    let size : ((pa + n * page_sz) % 2 ^ 32 + 2 ^ 32 - pa) % 2 ^ 32 ≡ n * page_sz = omega arith in
    let vstart : page_aligndown (vp * page_sz) ≡ vp * page_sz =
      page_aligndown_lem (vp * page_sz) (omega arith) ∙ omega arith in
    let end_ = (vp * page_sz + n * page_sz) % 2 ^ 32 in
    let vend : page_aligndown end_ ≡ end_ = page_aligndown_lem end_ (omega arith) ∙ omega arith in
    let good : (ltb 0 (vp * page_sz % page_sz) || ltb 0 (end_ % page_sz)) ≡ false = ground arith in
    let rounds : (end_ + 2 ^ 32 - vp * page_sz) % 2 ^ 32 / page_sz ≡ n = omega arith in
    let start : vp * page_sz % 2 ^ 32 ≡ vp * page_sz = omega arith in
    let frame0 : pa % 2 ^ 32 ≡ pa = omega arith in
    let looped = map_loop_lem e n k pgdir vp pa perm free hv al hpa hp absent is wf in
    rw (size, vstart, vend, good, rounds) (rw (start, frame0) at looped)

translate-page_entry :
    (m : Store) (pgdir va : ℕ)
    → translate m pgdir va ≡ (
        if present (page_entry m pgdir (va / page_sz))
        then some (frame (page_entry m pgdir (va / page_sz)) + va % 4096)
        else none)
unfolding translate page_entry
translate-page_entry m pgdir va = let d : va / page_sz / 1024 ≡ va / 4194304 = omega arith in rw d

-- The addresses of the pages that `map_pages` was asked to map.
abbrev pub InRange : ℕ → ℕ → ℕ → Type 0
InRange vp n va = (vp * page_sz ≤ va) × (va < (vp + n) * page_sz)

Mapped-translate :
    (e : ℕ) (k k' : KernelMem) (pgdir vp n pa perm : ℕ) (free : List ℕ)
    → pa % page_sz ≡ 0
    → pa + n * page_sz ≤ 2 ^ 32
    → perm < page_sz
    → Mapped e k k' pgdir vp n pa perm free
    → (va : ℕ) → va < 2 ^ 32
    → (InRange vp n va → translate k'.mem pgdir va ≡ some (pa + (va - vp * page_sz)))
      × ((¬ (InRange vp n va)) → translate k'.mem pgdir va ≡ translate k.mem pgdir va)
Mapped-translate e k k' pgdir vp n pa perm free al hpa hp m va h =
    let p = va / page_sz in
    let now = m.entries p (omega arith) in
    (
      λ inside.
          let test : (leb vp p && ltb p (vp + n)) ≡ true = ground arith in
          let (on, points, small) =
            new_pte_lem (pa + (p - vp) * page_sz) perm (omega arith) (omega arith) hp in
          translate-page_entry k'.mem pgdir va ∙ rw (now, test, on, points) (ap some (omega arith)),
      λ outside.
          let test : (leb vp p && ltb p (vp + n)) ≡ false =
            elim (Bool-cases (leb vp p && ltb p (vp + n))) [
              | inl is_in ↦ absurd (outside (ground arith, ground arith))
              | inr is_out ↦ is_out
            ] in
          translate-page_entry k'.mem pgdir va
          ∙ rw (now, test) (sym (translate-page_entry k.mem pgdir va)),
    )

-- Asked to map `n` whole pages that are not mapped yet, `map_pages` does not panic. If it returns
-- true, the processor translates each address of the range to its place in the frames, and every
-- other address as before; the directory stays well-formed and apart from the free pages. If it
-- returns false, no page is left, and the addresses outside the range are translated as before.
pub map_pages-translate :
    (kernel_end n : ℕ) (k : KernelMem) (pgdir vp pa perm : ℕ) (free : List ℕ)
    → vp + n ≤ 2 ^ 20
    → vp < 2 ^ 20
    → n < 2 ^ 20
    → pa % page_sz ≡ 0
    → pa < 2 ^ 32
    → pa + n * page_sz ≤ 2 ^ 32
    → perm < page_sz
    → ((p : ℕ) → vp ≤ p → p < vp + n → present (page_entry k.mem pgdir p) ≡ false)
    → IsFree kernel_end k free
    → IsPgdir kernel_end k.mem pgdir free
    → (mapped : Bool) × (k' : KernelMem) × (left : List ℕ) × (map_pages k pgdir (vmap vp n pa perm)
        ≡ ok (mapped, k'))
      × IsFree kernel_end k' left
      × IsPgdir kernel_end k'.mem pgdir left
      × ((va : ℕ)
          → va < 2 ^ 32
          → InRange vp n va
          → mapped ≡ true
          → translate k'.mem pgdir va ≡ some (pa + (va - vp * page_sz)))
      × ((va : ℕ)
          → va < 2 ^ 32
          → ¬ (InRange vp n va)
          → translate k'.mem pgdir va ≡ translate k.mem pgdir va)
      × (mapped ≡ false → left ≡ [])
map_pages-translate e n k pgdir vp pa perm free hv hvp hn al hpb hpa hp absent is wf =
    elim (map_pages-outcome e n k pgdir vp pa perm free hv hvp hn al hpb hpa hp absent is wf) [
      | inl (k', eq, m) ↦ (
        true,
        k',
        m.left,
        eq,
        m.is_free,
        m.wf,
        λ va h inside on.
            (Mapped-translate e k k' pgdir vp n pa perm free al hpa hp m va h).0 inside,
        λ va h outside.
            (Mapped-translate e k k' pgdir vp n pa perm free al hpa hp m va h).1 outside,
        λ eq'. cc,
      )
      | inr (k', done, lt, eq, m, empty) ↦ (
        false,
        k',
        [],
        eq,
        empty,
        IsPgdir-cong e k'.mem k'.mem pgdir m.left [] (λ d hd. refl) (λ x h. tt) m.wf,
        λ va h inside on. cc,
        λ va h outside.
            (Mapped-translate e k k' pgdir vp done pa perm free al (omega arith) hp m va h).1
              (λ inside. outside (inside.0, omega arith)),
        λ eq'. refl,
      )
    ]
