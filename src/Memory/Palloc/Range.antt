-- ===== src/Memory/Palloc/Range.antt =====
-- `pfree_range` and `palloc_init`: the pages of a range.
use melon_os.Common.{
  ℕ, zero, suc, ◌+◌, ◌-◌, ◌/◌, ◌%◌, ◌≤◌, ◌<◌, ◌≡◌, refl, List, [], ◌∷◌, ok, arith, leb, true, false,
}
use melon_os.Memory.Layout.{page_sz, phystop, kern_base}
use melon_os.Memory.Palloc.{KernelMem, pfree_loop, pfree_range, palloc_init}
use melon_os.Memory.Palloc.Pages.{IsPage}
use melon_os.Memory.Palloc.FreeList.{NotIn, IsFree, pfree-IsFree}

-- `n` pages from `p` on, the last one first, in front of `xs`
abbrev pub pages : ℕ → ℕ → List ℕ → List ℕ
pages p zero xs = xs
pages p (suc n) xs = pages (p + page_sz) n (p ∷ xs)

-- None of the pages lies at `p` or above it.
abbrev pub Below : ℕ → List ℕ → Type 0
Below p [] = Unit
Below p (x ∷ xs) = (x < p) × Below p xs

NotIn-Below : (p q : ℕ) (xs : List ℕ) → p ≤ q → Below p xs → NotIn q xs
NotIn-Below p q [] h b = tt
NotIn-Below p q (x ∷ xs) h b = (omega arith, NotIn-Below p q xs h b.1)

Below-mono : (p q : ℕ) (xs : List ℕ) → p ≤ q → Below p xs → Below q xs
Below-mono p q [] h b = tt
Below-mono p q (x ∷ xs) h b = (omega arith, Below-mono p q xs h b.1)

pfree_loop-IsFree :
    (e n : ℕ) (k : KernelMem) (p vend : ℕ) (xs : List ℕ)
    → IsFree e k xs
    → Below p xs
    → e ≤ p
    → p % page_sz ≡ 0
    → kern_base ≤ p
    → vend ≤ kern_base + phystop
    → n ≡ (vend - p) / page_sz
    → (k' : KernelMem) × (pfree_loop e n k p vend ≡ ok k') × IsFree e k' (pages p n xs)
unfolding pfree_loop
pfree_loop-IsFree e zero k p vend xs free lo ep al kp top rounds =
    let stop : leb (p + page_sz) vend ≡ false = ground arith in (k, rw stop, free)
pfree_loop-IsFree e (suc n) k p vend xs free lo ep al kp top rounds =
    let more : leb (p + page_sz) vend ≡ true = ground arith in
    let page : IsPage e p = omega arith in
    let (k1, freed, free1, same) =
      pfree-IsFree e k p xs free page (NotIn-Below p p xs (omega arith) lo) in
    let (k2, done, free2) =
      pfree_loop-IsFree e n k1 (p + page_sz) vend (p ∷ xs) free1
        (omega arith, Below-mono p (p + page_sz) xs (omega arith) lo) (omega arith) (omega arith)
        (omega arith) top (omega arith) in
    (k2, rw (more, freed) done, free2)

-- `palloc_init` on a range that starts on a page boundary, at or behind the kernel's image and any
-- page that is free already, and ends within the direct map: it does not panic, and adds to the
-- free list exactly the whole pages of the range, the highest of them in front.
pub palloc_init-IsFree :
    (kernel_end : ℕ) (k : KernelMem) (vstart vend : ℕ) (xs : List ℕ)
    → IsFree kernel_end k xs
    → Below vstart xs
    → kernel_end ≤ vstart
    → vstart % page_sz ≡ 0
    → kern_base ≤ vstart
    → vend ≤ kern_base + phystop
    → (k' : KernelMem) × (palloc_init kernel_end k vstart vend ≡ ok k')
      × IsFree kernel_end k' (pages vstart ((vend - vstart) / page_sz) xs)
unfolding palloc_init pfree_range
palloc_init-IsFree e k vstart vend xs free lo ep al kp top =
    pfree_loop-IsFree e ((vend - vstart) / page_sz) k vstart vend xs free lo ep al kp top refl
