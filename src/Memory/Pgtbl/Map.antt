-- ===== src/Memory/Pgtbl/Map.antt =====
-- `map_pages`: what it makes of the page tables, and what it leaves as it was.
use melon_os.Common.{
  ℕ, ◌+◌, ◌-◌, ◌*◌, ◌/◌, ◌%◌, ◌<◌, ◌^◌, ◌≡◌, ◌∙◌, inl, inr, List, ◌==◌, ◌&&◌, if◌then◌else◌, true,
  false, not, Store, ok, arith, Bool-cases, ltb, leb, ==_iff, sym, ap, bit_and, bit_or,
}
use melon_os.Common.Bits.{bit_or-low, bit_or-odd, bit_or-bound}
use melon_os.Memory.Word.{load32, store32}
use melon_os.Memory.Layout.{page_sz}
use melon_os.Memory.Mmu.{pte_p}
use melon_os.Memory.Palloc.{KernelMem}
use melon_os.Memory.Palloc.FreeList.{NotIn, IsFree, Chain-frame}
use melon_os.Memory.Pgtbl.{new_pte, map_page}
use melon_os.Memory.Pgtbl.Translate.{
  dir_index, table_index, table_at, present, entry, frame, entry_of_present,
}
use melon_os.Memory.Pgtbl.Tables.{IsPgdir, store32-in_page, entry-store}
use melon_os.Memory.Pgtbl.Entries.{present_test}
use melon_os.Memory.Pgtbl.Walk.{Found}

-- The entry of the virtual page with the number `vp`.
unfoldable pub page_entry : Store → ℕ → ℕ → ℕ
page_entry m pgdir vp = entry m pgdir (vp / 1024) (vp % 1024)

pub new_pte_lem :
    (pa perm : ℕ)
    → pa % page_sz ≡ 0
    → pa < 2 ^ 32
    → perm < page_sz
    → (present (new_pte pa perm) ≡ true)
      × (frame (new_pte pa perm) ≡ pa)
      × (new_pte pa perm < 2 ^ 32)
unfolding new_pte
new_pte_lem pa perm al bound hp =
    let q = pa / 4096 in
    let a0 : pa ≡ q * 2 ^ 12 + 0 = omega arith in
    let a1 : bit_or pa pte_p ≡ q * 2 ^ 12 + 1 =
      ap (λ x. bit_or x 1) a0 ∙ bit_or-low 12 q 0 1 (omega arith) (omega arith) in
    let a2 : bit_or (q * 2 ^ 12 + 1) perm ≡ q * 2 ^ 12 + bit_or 1 perm =
      bit_or-low 12 q 1 perm (omega arith) hp in
    let odd : bit_or 1 perm % 2 ≡ 1 = bit_or-odd 1 perm (omega arith) in
    let small : bit_or 1 perm < 2 ^ 12 = bit_or-bound 12 1 perm (omega arith) hp in
    rw (a1, a2) (ground arith, omega arith, omega arith)

-- The outcome of mapping `n` pages from the page number `vp` on to frames from `pa` on: the state
-- is well-formed, and each entry is new in the range and unchanged outside it. `done` is how many
-- pages were mapped before memory ran out.
pub record Mapped (e : ℕ) (k k' : KernelMem) (pgdir vp done pa perm : ℕ) (free : List ℕ)
    : Type 0 where
  pub left : List ℕ
  pub is_free : IsFree e k' left
  pub wf : IsPgdir e k'.mem pgdir left
  pub fewer : (x : ℕ) → NotIn x free → NotIn x left
  pub entries :
      (p : ℕ)
      → p < 2 ^ 20
      → page_entry k'.mem pgdir p ≡ (
          if leb vp p && ltb p (vp + done)
          then new_pte (pa + (p - vp) * page_sz) perm
          else page_entry k.mem pgdir p)

pub map_page_lem :
    (e : ℕ) (k : KernelMem) (pgdir va pa perm : ℕ) (free : List ℕ) (h : va < 2 ^ 32)
    → pa % page_sz ≡ 0
    → pa < 2 ^ 32
    → perm < page_sz
    → va % page_sz ≡ 0
    → present (page_entry k.mem pgdir (va / page_sz)) ≡ false
    → Found e k pgdir va h free
    → (k' : KernelMem) × (map_page k pgdir va pa perm ≡ ok (true, k'))
      × Mapped e k k' pgdir (va / page_sz) 1 pa perm free
unfolding map_page page_entry
map_page_lem e k pgdir va pa perm free h al bound hp val absent (k1, w, eq) =
    let i = dir_index va in
    let j = table_index va in
    let parts : entry k.mem pgdir i j
        ≡ entry k.mem pgdir (va / page_sz / 1024) (va / page_sz % 1024) =
      ap (λ d. entry k.mem pgdir d j) (omega arith) in
    let t = table_at k1.mem pgdir i in
    let table = w.wf.table_page i (omega arith) w.on in
    let from = table.from in
    let nonzero : (t + 4 * j == 0) ≡ false = ground arith in
    let word : load32 k1.mem (t + 4 * j) ≡ entry k1.mem pgdir i j =
      sym (entry_of_present k1.mem pgdir i j w.on) in
    let gone : not (bit_and (load32 k1.mem (t + 4 * j)) pte_p == 0) ≡ false =
      present_test (load32 k1.mem (t + 4 * j))
      ∙ ap (λ x. present x) (word ∙ w.same i j (omega arith) (omega arith) ∙ parts)
      ∙ absent in
    let clear = store32-in_page e k1.mem t j (new_pte pa perm) (omega arith) in
    let (fits, points, small) = new_pte_lem pa perm al bound hp in
    let (stored, wf') =
      entry-store e k1.mem pgdir w.left i j (new_pte pa perm) w.wf (omega arith) (omega arith) small
        w.on in
    (
      record { mem = store32 k1.mem (t + 4 * j) (new_pte pa perm); freelist = k1.freelist },
      rw (eq, nonzero, gone),
      record {
        left = w.left;
        is_free =
            Chain-frame e k1.mem _ k1.freelist t w.left table.aligned
              (w.wf.table_used i (omega arith) w.on) clear w.is_free;
        wf = wf';
        fewer = w.fewer;
        entries = λ p hp'.
            stored (p / 1024) (p % 1024) (omega arith) (omega arith)
            ∙ one_entry p hp' (w.same (p / 1024) (p % 1024) (omega arith) (omega arith));
      },
    )
  where
    one_entry :
        (p : ℕ)
        → p < 2 ^ 20
        → entry k1.mem pgdir (p / 1024) (p % 1024) ≡ entry k.mem pgdir (p / 1024) (p % 1024)
        → (if p / 1024 == dir_index va && p % 1024 == table_index va
            then new_pte pa perm
            else entry k1.mem pgdir (p / 1024) (p % 1024))
          ≡ (if leb (va / page_sz) p && ltb p (va / page_sz + 1)
              then new_pte (pa + (p - va / page_sz) * page_sz) perm
              else entry k.mem pgdir (p / 1024) (p % 1024))
    one_entry p hp' kept = elim (Bool-cases (p == va / page_sz)) [
      | inl eq ↦
          let e' = (==_iff p (va / page_sz)).0 eq in
          let a : (p / 1024 == dir_index va && p % 1024 == table_index va) ≡ true = ground arith in
          let b : (leb (va / page_sz) p && ltb p (va / page_sz + 1)) ≡ true = ground arith in
          rw (a, b) (ap (λ x. new_pte x perm) (omega arith))
      | inr ne ↦
          let a : (p / 1024 == dir_index va && p % 1024 == table_index va) ≡ false = ground arith in
          let b : (leb (va / page_sz) p && ltb p (va / page_sz + 1)) ≡ false = ground arith in
          rw (a, b) kept
    ]
