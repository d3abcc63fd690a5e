-- ===== src/Memory/Vmem.antt =====
-- kernel/memory/vmem.c: the kernel's mapping, and the user part of an address space. The processor
-- registers that `kvm_switch` and `uvm_switch` load are left out.
use melon_os.Common.{
  ℕ, zero, suc, ◌+◌, ◌-◌, ◌*◌, ◌/◌, ◌%◌, ◌^◌, Bool, true, false, not, ltb, ◌==◌, if◌then◌else◌,
  bit_and, bit_or, List, [], ◌∷◌, Store, Result, ok, ◌>>=◌, ◌>>◌, kassert, min,
}
use melon_os.Libc.Mem.{memset, memmove}
use melon_os.Memory.Word.{load32}
use melon_os.Memory.Layout.{page_sz, phystop, extmem, dev_space, kern_base, kern_link, ka2p, p2ka}
use melon_os.Memory.Mmu.{
  page_alignup, page_aligndown, pte_addr, pte_flags, pte_p, pte_w, pte_u, npdes,
}
use melon_os.Memory.Palloc.{KernelMem, palloc, pfree}
use melon_os.Memory.Pgtbl.{VMap, get_pte, map_pages, unmap_pages}

-- `kmap` as `init_kmap` sets it; `kernel_data` is the symbol `data` of kernel.ld.
unfoldable pub kmap : ℕ → List VMap
kmap kernel_data =
    record { virt = kern_base; pstart = 0; pend = extmem; perm = pte_w }
    ∷ record { virt = kern_link; pstart = ka2p kern_link; pend = ka2p kernel_data; perm = 0 }
    ∷ record { virt = kernel_data; pstart = ka2p kernel_data; pend = phystop; perm = pte_w }
    ∷ record { virt = dev_space; pstart = dev_space; pend = 0; perm = pte_w }
    ∷ []

-- a user page at `virt`, in the frame of the kernel address `page`
abbrev pub user_page : ℕ → ℕ → ℕ → VMap
user_page virt page perm = record {
  virt = virt;
  pstart = ka2p page;
  pend = ka2p (page + page_sz);
  perm = perm;
}

-- `uva2ka`: 0 for an address that the user has no page at
unfoldable pub uva2ka : Store → ℕ → ℕ → ℕ
uva2ka m pgdir vaddr =
    let pte = load32 m (get_pte m pgdir vaddr) in
    if bit_and pte pte_p == 0 then 0 else if bit_and pte pte_u == 0 then 0 else p2ka (pte_addr pte)

-- the loop of `kvm_allocate` over `kmap`
unfoldable pub map_all : KernelMem → ℕ → List VMap → Result (Bool × KernelMem)
map_all k pgdir [] = ok (true, k)
map_all k pgdir (v ∷ vs) = map_pages k pgdir v >>= λ (mapped, k1).
    let rest = map_all k1 pgdir vs in if mapped then rest else ok (false, k1)

-- `uvm_memcpy`: copies `size` bytes from the kernel address `buf` to user addresses from `vaddr`
-- on. Each round copies a byte at least, so `size` rounds are enough.
unfoldable pub memcpy_loop : ℕ → Store → ℕ → ℕ → ℕ → ℕ → Bool × Store
memcpy_loop zero m pgdir vaddr p size = (true, m)
memcpy_loop (suc rounds) m pgdir vaddr p size =
    let va0 = page_aligndown vaddr in
    let ka0 = uva2ka m pgdir va0 in
    let n = min (page_sz - (vaddr - va0)) size in
    let rest =
      memcpy_loop rounds (memmove m (ka0 + (vaddr - va0)) p n) pgdir ((va0 + page_sz) % 2 ^ 32)
        (p + n) (size - n) in
    if size == 0 then (true, m) else if ka0 == 0 then (false, m) else rest

-- `true` for the result 0, `false` for -1
unfoldable pub uvm_memcpy : KernelMem → ℕ → ℕ → ℕ → ℕ → Bool × KernelMem
uvm_memcpy k pgdir vaddr buf size =
    let (done, m) = memcpy_loop size k.mem pgdir vaddr buf size in (done, record k { mem = m })

-- `uvm_init1`: the code of init, `sz` bytes at the kernel address `init`, becomes user page 0.
unfoldable pub uvm_init1 : KernelMem → ℕ → ℕ → ℕ → Result KernelMem
uvm_init1 k pgdir init sz = do
  kassert (not (ltb page_sz sz))
  let (page, k1) = palloc k
  kassert (not (page == 0))
  (mapped, k2) ←
      map_pages (record k1 { mem = memset k1.mem page 0 page_sz }) pgdir
        (user_page 0 page (bit_or pte_w pte_u))
  ok (record k2 { mem = memmove k2.mem page init sz })

module _ (kernel_end : ℕ) where
  unfoldable pub uvm_deallocate : KernelMem → ℕ → ℕ → ℕ → Result (ℕ × KernelMem)
  uvm_deallocate k pgdir oldsz newsz =
      let newsz_a = page_alignup newsz in
      let oldsz_a = page_alignup oldsz in
      if ltb oldsz newsz
      then ok (oldsz, k)
      else if ltb newsz_a oldsz_a
      then (unmap_pages kernel_end k pgdir newsz_a ((oldsz_a - newsz_a) / page_sz) true >>= λ k1.
          ok (newsz, k1))
      else ok (newsz, k)

  -- `for (int i = 0; i < NPDES; ++i)` of `vmfree`, with `rounds` to go
  unfoldable pub free_tables : ℕ → KernelMem → ℕ → ℕ → Result KernelMem
  free_tables zero k pgdir i = ok k
  free_tables (suc rounds) k pgdir i =
      let pde = load32 k.mem (pgdir + 4 * i) in
      (if bit_and pde pte_p == 0 then ok k else pfree kernel_end k (p2ka (pte_addr pde))) >>= λ k1.
      free_tables rounds k1 pgdir (i + 1)

  unfoldable pub vmfree : KernelMem → ℕ → Result KernelMem
  vmfree k pgdir = do
    kassert (not (pgdir == 0))
    (size, k1) ← uvm_deallocate k pgdir kern_base 0
    k2 ← free_tables npdes k1 pgdir 0
    pfree kernel_end k2 pgdir

  -- One round of `uvm_allocate` with the page `page` for the user address `p`; `false` where no
  -- page is left for a table.
  unfoldable pub use_page : KernelMem → ℕ → ℕ → ℕ → ℕ → ℕ → Result (Bool × KernelMem)
  use_page k pgdir p page oldsz newsz = do
    (mapped, k1) ←
        map_pages (record k { mem = memset k.mem page 0 page_sz }) pgdir
          (user_page p page (bit_or pte_w pte_u))
    if mapped then ok (true, k1) else do
      (size, k2) ← uvm_deallocate k1 pgdir newsz oldsz
      k3 ← pfree kernel_end k2 page
      ok (false, k3)

  unfoldable pub allocate_page : KernelMem → ℕ → ℕ → ℕ → ℕ → Result (Bool × KernelMem)
  allocate_page k pgdir p oldsz newsz =
      let (page, k1) = palloc k in
      if page == 0
      then (uvm_deallocate k1 pgdir newsz oldsz >>= λ (size, k2). ok (false, k2))
      else use_page k1 pgdir p page oldsz newsz

  -- `for (uintptr_t p = page_alignup(oldsz); p < newsz; p += PAGE_SZ)`, with `rounds` to go
  unfoldable pub allocate_loop : ℕ → KernelMem → ℕ → ℕ → ℕ → ℕ → Result (ℕ × KernelMem)
  allocate_loop zero k pgdir p oldsz newsz = ok (newsz, k)
  allocate_loop (suc rounds) k pgdir p oldsz newsz =
      let next = allocate_page k pgdir p oldsz newsz >>= λ (more, k1).
      let rest = allocate_loop rounds k1 pgdir (p + page_sz) oldsz newsz in
      if more then rest else ok (0, k1) in
      if ltb p newsz then next else ok (newsz, k)

  unfoldable pub uvm_allocate : KernelMem → ℕ → ℕ → ℕ → Result (ℕ × KernelMem)
  uvm_allocate k pgdir oldsz newsz =
      if ltb kern_base newsz
      then ok (0, k)
      else if ltb newsz oldsz
      then ok (oldsz, k)
      else allocate_loop (newsz / page_sz + 1) k pgdir (page_alignup oldsz) oldsz newsz

module _ (kernel_end kernel_data : ℕ) where
  -- `kvm_allocate` behind the allocation of the page `page` for the directory
  unfoldable pub kvm_map : KernelMem → ℕ → Result (Bool × ℕ × KernelMem)
  kvm_map k page = do
    (mapped, k1) ← map_all (record k { mem = memset k.mem page 0 page_sz }) page (kmap kernel_data)
    if mapped then ok (true, page, k1) else do k2 ← vmfree kernel_end k1 page; ok (false, page, k2)

  -- `kvm_allocate`: success, and what `pgdir->t` is set to
  unfoldable pub kvm_allocate : KernelMem → Result (Bool × ℕ × KernelMem)
  kvm_allocate k = do
    kassert (not (ltb dev_space (p2ka phystop)))
    let (page, k1) = palloc k
    if page == 0 then ok (false, 0, k1) else kvm_map k1 page

  -- The rest of a round of `uvm_copy`, with the page `page` for a copy of the one behind `word`.
  unfoldable pub copy_into : KernelMem → ℕ → ℕ → ℕ → ℕ → Result (Bool × KernelMem)
  copy_into k new_pgdir i page word = do
    (mapped, k1) ←
        map_pages (record k { mem = memmove k.mem page (p2ka (pte_addr word)) page_sz }) new_pgdir
          (user_page i page (pte_flags word))
    if mapped then ok (true, k1) else do k2 ← vmfree kernel_end k1 new_pgdir; ok (false, k2)

  -- one round of `uvm_copy`, for the page at `i`
  unfoldable pub copy_page : KernelMem → ℕ → ℕ → ℕ → Result (Bool × KernelMem)
  copy_page k new_pgdir pgdir i = do
    let pte = get_pte k.mem pgdir i
    kassert (not (pte == 0))
    let word = load32 k.mem pte
    kassert (not (bit_and word pte_p == 0))
    let (page, k1) = palloc k
    if page == 0
        then (vmfree kernel_end k1 new_pgdir >>= λ k2. ok (false, k2))
        else copy_into k1 new_pgdir i page word

  -- `for (size_t i = 0; i < npg; i += PAGE_SZ)`, with `rounds` to go
  unfoldable pub copy_loop : ℕ → KernelMem → ℕ → ℕ → ℕ → ℕ → Result (Bool × KernelMem)
  copy_loop zero k new_pgdir pgdir i npg = ok (true, k)
  copy_loop (suc rounds) k new_pgdir pgdir i npg =
      let next = copy_page k new_pgdir pgdir i >>= λ (more, k1).
      let rest = copy_loop rounds k1 new_pgdir pgdir (i + page_sz) npg in
      if more then rest else ok (false, k1) in
      if ltb i npg then next else ok (true, k)

  -- `uvm_copy`: success, and the directory that `*out` is set to then. `npg` is a size in bytes.
  unfoldable pub uvm_copy : KernelMem → ℕ → ℕ → Result (Bool × ℕ × KernelMem)
  uvm_copy k pgdir npg = do
    (set_up, new_pgdir, k1) ← kvm_allocate k
    if not set_up then ok (false, 0, k1) else do
      (copied, k2) ← copy_loop (npg / page_sz + 1) k1 new_pgdir pgdir 0 npg
      ok (copied, new_pgdir, k2)
