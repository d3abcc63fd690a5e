-- ===== src/Memory/Palloc.antt =====
-- kernel/memory/palloc.c: the free list of pages, which runs through the first word of each.
pub mod Pages
pub mod FreeList
pub mod Range
pub mod Owners
use melon_os.Common.{
  ℕ, zero, suc, ◌+◌, ◌-◌, ◌/◌, ◌%◌, not, ltb, leb, ◌==◌, if◌then◌else◌, Store, Result, ok, panic,
  ◌>>=◌,
}
use melon_os.Memory.Word.{load32, store32}
use melon_os.Memory.Layout.{page_sz, phystop, ka2p}

-- Memory and `kernel_mem`.
pub record KernelMem : Type 0 where
  pub mem : Store
  pub freelist : ℕ

-- `palloc`: the page, 0 where there is none (which `perror` reports)
unfoldable pub palloc : KernelMem → ℕ × KernelMem
palloc k =
    if k.freelist == 0
    then (0, k)
    else (k.freelist, record k { freelist = load32 k.mem k.freelist })

-- `kernel_end` is the symbol `end` of kernel.ld.
module _ (kernel_end : ℕ) where
  unfoldable pub pfree : KernelMem → ℕ → Result KernelMem
  pfree k v =
      if leb phystop (ka2p v)
      then panic
      else if ltb v kernel_end
      then panic
      else if not (v % page_sz == 0)
      then panic
      else ok (record k { mem = store32 k.mem v k.freelist; freelist = v })

  -- `for (; p + PAGE_SZ <= vend; p += PAGE_SZ) pfree(p);` with `rounds` left to go
  pfree_loop : ℕ → KernelMem → ℕ → ℕ → Result KernelMem
  pfree_loop zero k p vend = if leb (p + page_sz) vend then panic else ok k
  pfree_loop (suc rounds) k p vend =
      let next = pfree k p >>= λ k'. pfree_loop rounds k' (p + page_sz) vend in
      if leb (p + page_sz) vend then next else ok k

  unfoldable pub pfree_range : KernelMem → ℕ → ℕ → Result KernelMem
  unfolding pfree_loop
  pfree_range k vstart vend = pfree_loop ((vend - vstart) / page_sz) k vstart vend

  -- `palloc_init`, whose two log lines are left out
  unfoldable pub palloc_init : KernelMem → ℕ → ℕ → Result KernelMem
  palloc_init k vstart vend = pfree_range k vstart vend
