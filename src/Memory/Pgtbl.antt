-- ===== src/Memory/Pgtbl.antt =====
-- kernel/memory/pgtbl.c: the two levels of page tables. A pointer to an entry is its address. The
-- kernel reads and writes the tables through the direct map.
pub mod Translate
pub mod Tables
pub mod Entries
pub mod NewTable
pub mod Walk
pub mod Map
pub mod MapLoop
pub mod MapPages
use melon_os.Common.{
  ℕ, zero, suc, ◌+◌, ◌-◌, ◌*◌, ◌/◌, ◌%◌, ◌^◌, Bool, true, false, not, ◌&&◌, ◌||◌, ltb, leb, ◌==◌,
  if◌then◌else◌, bit_and, bit_or, Store, Result, ok, panic, ◌>>=◌,
}
use melon_os.Libc.Mem.{memset}
use melon_os.Memory.Word.{load32, store32}
use melon_os.Memory.Layout.{page_sz, phystop, ka2p, p2ka}
use melon_os.Memory.Mmu.{
  page_directory_idx, page_table_idx, pte_addr, page_aligndown, pte_p, pte_w, pte_u, pte_d,
}
use melon_os.Memory.Palloc.{KernelMem, palloc, pfree}

-- `VMap` of kernel/memory/vmem.h; addresses are 32-bit words.
pub record VMap : Type 0 where
  pub virt : ℕ
  pub pstart : ℕ
  pub pend : ℕ
  pub perm : ℕ

unfoldable pub get_pde : ℕ → ℕ → ℕ
get_pde pgdir vaddr = pgdir + 4 * page_directory_idx vaddr

unfoldable pub get_pt : Store → ℕ → ℕ → ℕ
get_pt m pgdir vaddr = p2ka (pte_addr (load32 m (get_pde pgdir vaddr)))

unfoldable pub get_pt1 : Store → ℕ → ℕ
get_pt1 m pde = p2ka (pte_addr (load32 m pde))

unfoldable pub get_pte : Store → ℕ → ℕ → ℕ
get_pte m pgdir vaddr = get_pt m pgdir vaddr + 4 * page_table_idx vaddr

unfoldable pub get_pte1 : Store → ℕ → ℕ → ℕ
get_pte1 m pde vaddr = get_pt1 m pde + 4 * page_table_idx vaddr

-- `*pde` for a new table: `KA2P_C((uintptr_t)pt.t | PDE_P | PDE_W | PDE_U)`
unfoldable pub new_pde : ℕ → ℕ
new_pde pt = ka2p (bit_or (bit_or (bit_or pt pte_p) pte_w) pte_u)

-- `walk`: the address of the entry, 0 where no page is left for a table
unfoldable pub walk : KernelMem → ℕ → ℕ → ℕ × KernelMem
walk k pgdir vaddr =
    let pde = get_pde pgdir vaddr in
    if not (bit_and (load32 k.mem pde) pte_p == 0)
    then (get_pte1 k.mem pde vaddr, k)
    else let (pt, k1) = palloc k in
      if pt == 0
      then (0, k1)
      else let m = store32 (memset k1.mem pt 0 page_sz) pde (new_pde pt) in
        (get_pte1 m pde vaddr, record k1 { mem = m })

-- `*pte = pstart | PTE_P | k->perm`
unfoldable pub new_pte : ℕ → ℕ → ℕ
new_pte pstart perm = bit_or (bit_or pstart pte_p) perm

-- The body of the loop of `map_pages`: `false` where `walk` fails.
unfoldable pub map_page : KernelMem → ℕ → ℕ → ℕ → ℕ → Result (Bool × KernelMem)
map_page k pgdir vstart pstart perm =
    let (pte, k1) = walk k pgdir vstart in
    if pte == 0
    then ok (false, k1)
    else if not (bit_and (load32 k1.mem pte) pte_p == 0)
    then panic
    else ok (true, record k1 { mem = store32 k1.mem pte (new_pte pstart perm) })

-- `for (; vstart != vend; vstart += PAGE_SZ, pstart += PAGE_SZ)`, with `rounds` to go. Both ends are
-- page aligned words, so the loop ends when the page numbers meet, after wrapping at most once.
unfoldable pub map_loop : ℕ → KernelMem → ℕ → ℕ → ℕ → ℕ → Result (Bool × KernelMem)
map_loop zero k pgdir vstart pstart perm = ok (true, k)
map_loop (suc rounds) k pgdir vstart pstart perm =
    map_page k pgdir vstart pstart perm >>= λ (mapped, k1).
    let rest =
      map_loop rounds k1 pgdir ((vstart + page_sz) % 2 ^ 32) ((pstart + page_sz) % 2 ^ 32) perm in
    if mapped then rest else ok (false, k1)

unfoldable pub map_pages : KernelMem → ℕ → VMap → Result (Bool × KernelMem)
map_pages k pgdir v =
    let size = (v.pend + 2 ^ 32 - v.pstart) % 2 ^ 32 in
    let vstart = page_aligndown v.virt in
    let vend = page_aligndown ((v.virt + size) % 2 ^ 32) in
    if ltb 0 (vstart % page_sz) || ltb 0 (vend % page_sz)
    then panic
    else map_loop ((vend + 2 ^ 32 - vstart) % 2 ^ 32 / page_sz) k pgdir vstart v.pstart v.perm

module _ (kernel_end : ℕ) where
  -- The body of the loop of `unmap_pages`, with `free` set where the frame is given back.
  unfoldable pub unmap_page : KernelMem → ℕ → ℕ → Bool → Result KernelMem
  unmap_page k pgdir a free =
      let pte = get_pte k.mem pgdir a in
      let cleared = λ (j : KernelMem). record j { mem = store32 j.mem pte 0 } in
      let addr = pte_addr (load32 k.mem pte) in
      if pte == 0
      then panic
      else if bit_and (load32 k.mem pte) pte_p == 0
      then ok (cleared k)
      else if leb phystop addr || ltb (p2ka addr) kernel_end
      then ok (cleared k)
      else if free
      then (pfree kernel_end k (p2ka addr) >>= λ k1. ok (cleared k1))
      else ok (cleared k)

  -- `for (uintptr_t a = vstart; a < vend; a += PAGE_SZ)`, with `rounds` to go
  unfoldable pub unmap_loop : ℕ → KernelMem → ℕ → ℕ → ℕ → Bool → Result KernelMem
  unmap_loop zero k pgdir a vend free = ok k
  unmap_loop (suc rounds) k pgdir a vend free =
      let next = unmap_page k pgdir a free >>= λ k1.
      unmap_loop rounds k1 pgdir ((a + page_sz) % 2 ^ 32) vend free in
      if ltb a vend then next else ok k

  unfoldable pub unmap_pages : KernelMem → ℕ → ℕ → ℕ → Bool → Result KernelMem
  unmap_pages k pgdir vstart n free =
      if not (vstart % page_sz == 0)
      then panic
      else unmap_loop n k pgdir vstart ((vstart + n * page_sz) % 2 ^ 32) free

-- The flags that `set_pte_flag` and `clear_pte_flag` know.
unfoldable pub known_flag : ℕ → Bool
known_flag flag = flag == pte_p || flag == pte_w || flag == pte_u || flag == pte_d

unfoldable pub set_pte_flag : KernelMem → ℕ → ℕ → ℕ → Result KernelMem
set_pte_flag k pgdir vaddr flag =
    let pte = get_pte k.mem pgdir vaddr in
    if not (known_flag flag)
    then panic
    else if pte == 0
    then panic
    else ok (record k { mem = store32 k.mem pte (bit_or (load32 k.mem pte) flag) })

unfoldable pub clear_pte_flag : KernelMem → ℕ → ℕ → ℕ → Result KernelMem
clear_pte_flag k pgdir vaddr flag =
    let pte = get_pte k.mem pgdir vaddr in
    if not (known_flag flag)
    then panic
    else if pte == 0
    then panic
    else ok (record k { mem = store32 k.mem pte (bit_and (load32 k.mem pte) (2 ^ 32 - 1 - flag)) })
