-- ===== src/Memory/Palloc/Pages.antt =====
-- What a page of the allocator is.
use melon_os.Common.{ℕ, ◌+◌, ◌%◌, ◌^◌, ◌≤◌, ◌<◌, ◌≡◌, refl, ◌⊎◌, inl, inr, Result, ok, panic, arith}
use melon_os.Memory.Layout.{page_sz, phystop, kern_base}
use melon_os.Memory.Palloc.{KernelMem, pfree}
use melon_os.Memory.Word.{store32}

-- Aligned, behind the kernel's image, and in the direct map of physical memory.
pub record IsPage (kernel_end v : ℕ) : Type 0 where
  pub above : kernel_end ≤ v
  pub aligned : v % page_sz ≡ 0
  pub from : kern_base ≤ v
  pub below : v < kern_base + phystop

-- `k` with the page `v` put in front of the free list
abbrev pub pushed : KernelMem → ℕ → KernelMem
pushed k v = record k { mem = store32 k.mem v k.freelist; freelist = v }

pub pfree-ok : (e : ℕ) (k : KernelMem) (v : ℕ) → IsPage e v → pfree e k v ≡ ok (pushed k v)
unfolding pfree
pfree-ok e k v p = ground arith

pfree-ok_inv :
    (e : ℕ) (k : KernelMem) (v : ℕ) {k' : KernelMem} → v < 2 ^ 32 → pfree e k v ≡ ok k' → IsPage e v
unfolding pfree
pfree-ok_inv e k v h eq = ground arith

-- On every 32-bit address `pfree` either puts a page of the allocator in front of the free list,
-- or finds that the address is no such page and panics.
pub pfree_cases :
    (kernel_end : ℕ) (k : KernelMem) (v : ℕ)
    → v < 2 ^ 32
    → (IsPage kernel_end v × (pfree kernel_end k v ≡ ok (pushed k v)))
      ⊎ ((¬ (IsPage kernel_end v)) × (pfree kernel_end k v ≡ panic))
pfree_cases e k v h = by_result (pfree e k v) refl
  where
    by_result :
        (r : Result KernelMem)
        → pfree e k v ≡ r
        → (IsPage e v × (pfree e k v ≡ ok (pushed k v)))
          ⊎ ((¬ (IsPage e v)) × (pfree e k v ≡ panic))
    by_result (ok k') eq = let p = pfree-ok_inv e k v h eq in inl (p, pfree-ok e k v p)
    by_result panic eq = inr (λ p. cc (pfree-ok e k v p), eq)
