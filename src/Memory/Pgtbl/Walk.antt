-- ===== src/Memory/Pgtbl/Walk.antt =====
-- `walk`: the entry of an address, with a table added where there is none.
use melon_os.Common.{
  ℕ, ◌+◌, ◌*◌, ◌<◌, ◌^◌, ◌≡◌, ◌∙◌, List, [], ◌∷◌, ◌==◌, true, false, not, arith, refl, bit_and,
}
use melon_os.Memory.Word.{load32}
use melon_os.Memory.Mmu.{pte_p}
use melon_os.Memory.Palloc.{KernelMem}
use melon_os.Memory.Palloc.FreeList.{NotIn, IsFree, palloc-some, palloc-nil, Chain-frame}
use melon_os.Memory.Pgtbl.{walk}
use melon_os.Memory.Pgtbl.Translate.{dir_index, table_index, dir_entry, table_at, present, entry}
use melon_os.Memory.Pgtbl.Tables.{IsPgdir}
use melon_os.Memory.Pgtbl.Entries.{get_pde_lem, get_pte1_lem, present_test}
use melon_os.Memory.Pgtbl.NewTable.{
  cleared, cleared-SameOff, added, added-SameOff, added-IsPgdir, present-added, entry-added,
}

-- Where `walk` finds or makes a table: the entry is there, and no entry has changed.
pub record Walked (e : ℕ) (k k' : KernelMem) (pgdir i : ℕ) (free : List ℕ) : Type 0 where
  pub left : List ℕ
  pub is_free : IsFree e k' left
  pub wf : IsPgdir e k'.mem pgdir left
  pub on : present (dir_entry k'.mem pgdir i) ≡ true
  pub same : (d j : ℕ) → d < 1024 → j < 1024 → entry k'.mem pgdir d j ≡ entry k.mem pgdir d j
  pub fewer : (x : ℕ) → NotIn x free → NotIn x left

module _ (e : ℕ) (k : KernelMem) (pgdir va : ℕ) (h : va < 2 ^ 32) where
  -- what a call of `walk` that succeeds has done
  abbrev pub Found : List ℕ → Type 0
  Found free =
      (k' : KernelMem) × Walked e k k' pgdir (dir_index va) free
      × (walk k pgdir va ≡ (table_at k'.mem pgdir (dir_index va) + 4 * table_index va, k'))

  pub walk-present :
      (free : List ℕ)
      → IsFree e k free
      → IsPgdir e k.mem pgdir free
      → present (dir_entry k.mem pgdir (dir_index va)) ≡ true
      → Found free
  unfolding walk
  walk-present free is wf on =
      let i = dir_index va in
      let test : not (bit_and (load32 k.mem (pgdir + 4 * i)) pte_p == 0) ≡ true =
        present_test (load32 k.mem (pgdir + 4 * i)) ∙ on in
      (
        k,
        record {
          left = free;
          is_free = is;
          wf = wf;
          on = on;
          same = λ d j p q. refl;
          fewer = λ x n. n;
        },
        rw (
          get_pde_lem pgdir va h,
          test,
          get_pte1_lem e k.mem pgdir va h (wf.table_page i (omega arith) on),
        ),
      )

  pub walk-new :
      (x : ℕ) (xs : List ℕ)
      → IsFree e k (x ∷ xs)
      → IsPgdir e k.mem pgdir (x ∷ xs)
      → present (dir_entry k.mem pgdir (dir_index va)) ≡ false
      → Found (x ∷ xs)
  unfolding walk
  walk-new x xs is wf off =
      let i = dir_index va in
      let hi : i < 1024 = omega arith in
      let page = is.1 in
      let out = is.2 in
      let test : not (bit_and (load32 k.mem (pgdir + 4 * i)) pte_p == 0) ≡ false =
        present_test (load32 k.mem (pgdir + 4 * i)) ∙ off in
      let (got, left) = palloc-some e k x xs is in
      let from = page.from in
      let found : (x == 0) ≡ false = ground arith in
      let m' = added e k.mem pgdir x i xs wf page out hi off in
      let wf' = added-IsPgdir e k.mem pgdir x i xs wf page out hi off in
      let on = present-added e k.mem pgdir x i xs wf page out hi off in
      (
        record { mem = m'; freelist = load32 k.mem x },
        record {
          left = xs;
          is_free =
              Chain-frame e (cleared e k.mem pgdir x i xs wf page out hi off) m' (load32 k.mem x)
                pgdir xs wf.dir_page.aligned wf.dir_used.1
                (added-SameOff e k.mem pgdir x i xs wf page out hi off)
                (Chain-frame e k.mem _ (load32 k.mem x) x xs page.aligned out
                  (cleared-SameOff e k.mem pgdir x i xs wf page out hi off) left);
          wf = wf';
          on = on;
          same = entry-added e k.mem pgdir x i xs wf page out hi off;
          fewer = λ y n. n.1;
        },
        rw (
          get_pde_lem pgdir va h,
          test,
          got,
          found,
          get_pte1_lem e m' pgdir va h (wf'.table_page i hi on),
        ),
      )

  pub walk-none :
      IsFree e k []
      → present (dir_entry k.mem pgdir (dir_index va)) ≡ false
      → walk k pgdir va ≡ (0, k)
  unfolding walk
  walk-none is off =
      let i = dir_index va in
      let test : not (bit_and (load32 k.mem (pgdir + 4 * i)) pte_p == 0) ≡ false =
        present_test (load32 k.mem (pgdir + 4 * i)) ∙ off in
      rw (get_pde_lem pgdir va h, test, palloc-nil e k is)
