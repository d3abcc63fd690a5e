-- ===== src/Memory/Pgtbl/Entries.antt =====
-- The addresses and words of pgtbl.c as arithmetic.
use melon_os.Common.{
  ℕ, ◌+◌, ◌-◌, ◌*◌, ◌/◌, ◌<◌, ◌^◌, ◌≡◌, ◌∙◌, ◌==◌, not, Store, arith, ap, bit_and, bit_or,
}
use melon_os.Common.Bits.{bit_and-ones, bit_or-low}
use melon_os.Memory.Word.{load32-bound}
use melon_os.Memory.Layout.{kern_base}
use melon_os.Memory.Mmu.{
  page_directory_idx_lem, page_table_idx_lem, pte_addr_lem, pte_p, pte_w, pte_u,
}
use melon_os.Memory.Palloc.Pages.{IsPage}
use melon_os.Memory.Pgtbl.{get_pde, get_pte1, get_pt1, new_pde}
use melon_os.Memory.Pgtbl.Translate.{dir_index, table_index, table_at, present}

-- The entry that is made for a new table is present, and points to the table.
pub new_pde_lem : (e t : ℕ) → IsPage e t → new_pde t ≡ t - kern_base + 7
unfolding new_pde
new_pde_lem e t page =
    let al = page.aligned in
    let lo = page.from in
    let hi = page.below in
    let q = t / 4096 in
    let a0 : t ≡ q * 2 ^ 12 + 0 = omega arith in
    let a1 : bit_or t pte_p ≡ q * 2 ^ 12 + 1 =
      ap (λ x. bit_or x 1) a0 ∙ bit_or-low 12 q 0 1 (omega arith) (omega arith) in
    let a2 : bit_or (q * 2 ^ 12 + 1) pte_w ≡ q * 2 ^ 12 + 3 =
      bit_or-low 12 q 1 2 (omega arith) (omega arith) in
    let a3 : bit_or (q * 2 ^ 12 + 3) pte_u ≡ q * 2 ^ 12 + 7 =
      bit_or-low 12 q 3 4 (omega arith) (omega arith) in
    rw (a1, a2, a3) (omega arith)

pub get_pde_lem : (pgdir va : ℕ) → va < 2 ^ 32 → get_pde pgdir va ≡ pgdir + 4 * dir_index va
unfolding get_pde
get_pde_lem pgdir va h = rw (page_directory_idx_lem va h)

-- The code's address of an entry is that of the processor, where the table is a page.
pub get_pte1_lem :
    (e : ℕ) (m : Store) (pgdir va : ℕ)
    → va < 2 ^ 32
    → IsPage e (table_at m pgdir (dir_index va))
    → get_pte1 m (pgdir + 4 * dir_index va) va
      ≡ table_at m pgdir (dir_index va) + 4 * table_index va
unfolding get_pte1 get_pt1
get_pte1_lem e m pgdir va h page =
    let hi = page.below in
    rw (pte_addr_lem _ (load32-bound m (pgdir + 4 * dir_index va)), page_table_idx_lem va)
      (omega arith)

-- the test `*pde & PDE_P`
pub present_test : (w : ℕ) → not (bit_and w pte_p == 0) ≡ present w
present_test w = rw (bit_and-ones 1 w) (ground arith)
