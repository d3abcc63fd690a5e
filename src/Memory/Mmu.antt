-- ===== src/Memory/Mmu.antt =====
-- i386/mmu.h: the parts of a virtual address and of a page table entry.
use melon_os.Common.{
  ℕ, ◌+◌, ◌-◌, ◌*◌, ◌/◌, ◌%◌, ◌^◌, ◌≤◌, ◌<◌, ◌≡◌, ◌∙◌, ap, bit_and, bit_or, arith,
}
use melon_os.Common.Bits.{bit_and-ones, bit_and-shifted, bit_or-disjoint}
use melon_os.Memory.Layout.{page_sz}

abbrev pub npdes : ℕ
npdes = 1024

abbrev pub nptes : ℕ
nptes = 1024

abbrev pub pte_p : ℕ
pte_p = 1

abbrev pub pte_w : ℕ
pte_w = 2

abbrev pub pte_u : ℕ
pte_u = 4

abbrev pub pte_d : ℕ
pte_d = 0x20

unfoldable pub vaddr_offset : ℕ → ℕ
vaddr_offset v = bit_and v 0xfff

unfoldable pub page_directory_idx : ℕ → ℕ
page_directory_idx v = bit_and (v / 2 ^ 22) 0x3FF

unfoldable pub page_table_idx : ℕ → ℕ
page_table_idx v = bit_and (v / 2 ^ 12) 0x3FF

-- `~(PAGE_SZ-1)` and `~0xFFF` as 32-bit words
abbrev pub page_mask : ℕ
page_mask = 0xFFFFF000

unfoldable pub page_alignup : ℕ → ℕ
page_alignup sz = bit_and ((sz + page_sz - 1) % 2 ^ 32) page_mask

unfoldable pub page_aligndown : ℕ → ℕ
page_aligndown a = bit_and a page_mask

unfoldable pub pte_addr : ℕ → ℕ
pte_addr pte = bit_and pte page_mask

unfoldable pub pte_flags : ℕ → ℕ
pte_flags pte = bit_and pte 0xFFF

unfoldable pub page_addr : ℕ → ℕ → ℕ → ℕ
page_addr pde pte offset = bit_or (bit_or (pde * 2 ^ 22 % 2 ^ 32) (pte * 2 ^ 12 % 2 ^ 32)) offset

pub bit_and-page_mask : (a : ℕ) → a < 2 ^ 32 → bit_and a page_mask ≡ a / 4096 * 4096
bit_and-page_mask a h =
    bit_and-shifted 12 a 0xFFFFF ∙ ap (λ x. x * 4096) (bit_and-ones 20 (a / 4096) ∙ omega arith)

pub vaddr_offset_lem : (v : ℕ) → vaddr_offset v ≡ v % 4096
unfolding vaddr_offset
vaddr_offset_lem v = bit_and-ones 12 v

pub page_directory_idx_lem : (v : ℕ) → v < 2 ^ 32 → page_directory_idx v ≡ v / 4194304
unfolding page_directory_idx
page_directory_idx_lem v h = bit_and-ones 10 (v / 2 ^ 22) ∙ omega arith

pub page_table_idx_lem : (v : ℕ) → page_table_idx v ≡ v / 4096 % 1024
unfolding page_table_idx
page_table_idx_lem v = bit_and-ones 10 (v / 2 ^ 12)

pub pte_addr_lem : (v : ℕ) → v < 2 ^ 32 → pte_addr v ≡ v / 4096 * 4096
unfolding pte_addr
pte_addr_lem v h = bit_and-page_mask v h

pub pte_flags_lem : (v : ℕ) → pte_flags v ≡ v % 4096
unfolding pte_flags
pte_flags_lem v = bit_and-ones 12 v

pub page_aligndown_lem : (v : ℕ) → v < 2 ^ 32 → page_aligndown v ≡ v / 4096 * 4096
unfolding page_aligndown
page_aligndown_lem v h = bit_and-page_mask v h

-- Up to the last page of the address space `page_alignup` returns the least multiple of the page
-- size that is not below its argument.
pub page_alignup_lem :
    (sz : ℕ)
    → sz + page_sz ≤ 2 ^ 32
    → (page_alignup sz % page_sz ≡ 0) × (sz ≤ page_alignup sz) × (page_alignup sz < sz + page_sz)
unfolding page_alignup
page_alignup_lem sz h =
    let e = bit_and-page_mask ((sz + page_sz - 1) % 2 ^ 32) (omega arith) in
    (omega (arith, e), omega (arith, e), omega (arith, e))

-- The directory index, table index and offset of a 32-bit address put together give the address.
page_addr-parts :
    (v : ℕ) → v < 2 ^ 32 → page_addr (page_directory_idx v) (page_table_idx v) (vaddr_offset v) ≡ v
unfolding page_addr
page_addr-parts v h =
    let hi : v / 4194304 * 4194304 % 2 ^ 32 ≡ v / 4194304 * 2 ^ 22 = omega arith in
    let mid : v / 4096 % 1024 * 4096 % 2 ^ 32 ≡ v / 4096 % 1024 * 4096 = omega arith in
    let both : v / 4194304 * 2 ^ 22 + v / 4096 % 1024 * 4096 ≡ v / 4096 * 2 ^ 12 = omega arith in
    rw
      (
        page_directory_idx_lem v h,
        page_table_idx_lem v,
        vaddr_offset_lem v,
        hi,
        mid,
        bit_or-disjoint 22 (v / 4194304) (v / 4096 % 1024 * 4096) (omega arith),
        both,
        bit_or-disjoint 12 (v / 4096) (v % 4096) (omega arith),
      )
      (omega arith)
