-- ===== src/Memory/Palloc/FreeList.antt =====
-- The free list as a list of distinct pages, and what each operation does to it.
use melon_os.Common.{
  ℕ, ◌+◌, ◌%◌, ◌^◌, ◌≤◌, ◌<◌, ◌≡◌, refl, ◌≢◌, ◌⊎◌, inl, inr, List, [], ◌∷◌, Store, ok, arith,
  Bool-cases, ltb, ◌==◌, false,
}
use melon_os.Memory.Layout.{page_sz}
use melon_os.Memory.Word.{load32, store32, load32_cong, load32-store32_self, store32_outside}
use melon_os.Memory.Palloc.{KernelMem, palloc, pfree}
use melon_os.Memory.Palloc.Pages.{IsPage, pushed, pfree-ok}

-- `x` is none of the pages.
abbrev pub NotIn : ℕ → List ℕ → Type 0
NotIn x [] = Unit
NotIn x (y ∷ ys) = (x ≢ y) × NotIn x ys

module _ (kernel_end : ℕ) where
  -- From `p` the first words of distinct pages lead through `xs` to 0.
  abbrev pub Chain : Store → ℕ → List ℕ → Type 0
  Chain m p [] = p ≡ 0
  Chain m p (x ∷ xs) = (p ≡ x) × IsPage kernel_end x × NotIn x xs × Chain m (load32 m x) xs

  -- The allocator holds exactly the pages `xs`, the next to be handed out first.
  abbrev pub IsFree : KernelMem → List ℕ → Type 0
  IsFree k xs = Chain k.mem k.freelist xs

-- The two memories agree outside the page `v`.
abbrev pub SameOff : ℕ → Store → Store → Type 0
SameOff v m m' = (a : ℕ) → (a < v) ⊎ (v + page_sz ≤ a) → m' a ≡ m a

-- Writes into a page that is not free leave the free list alone.
pub Chain-frame :
    (e : ℕ) (m m' : Store) (p v : ℕ) (xs : List ℕ)
    → v % page_sz ≡ 0
    → NotIn v xs
    → SameOff v m m'
    → Chain e m p xs
    → Chain e m' p xs
Chain-frame e m m' p v [] al out same c = c
Chain-frame e m m' p v (x ∷ xs) al out same c =
    let kept : load32 m' x ≡ load32 m x = load32_cong m m' x λ b lo hi. same b (off b lo hi) in
    (c.0, c.1, c.2, rw kept (Chain-frame e m m' (load32 m x) v xs al out.1 same c.3))
  where
    off : (b : ℕ) → x ≤ b → b < x + 4 → (b < v) ⊎ (v + page_sz ≤ b)
    off b lo hi =
        let ax = c.1.aligned in
        let ne = out.0 in
        elim (Bool-cases (ltb b v)) [ inl low ↦ inl (ground arith) | inr high ↦ inr (ground arith) ]

store32-SameOff : (m : Store) (v w : ℕ) → SameOff v m (store32 m v w)
store32-SameOff m v w a (inl h) = store32_outside m v w a (inl h)
store32-SameOff m v w a (inr h) = store32_outside m v w a (inr (omega arith))

pub freelist-bound : (e : ℕ) (k : KernelMem) (xs : List ℕ) → IsFree e k xs → k.freelist < 2 ^ 32
freelist-bound e k [] c = omega arith
freelist-bound e k (x ∷ xs) c = let b = c.1.below in omega arith

-- `pfree` of a page that is not free puts it in front, and writes only inside it.
pub pfree-IsFree :
    (kernel_end : ℕ) (k : KernelMem) (v : ℕ) (xs : List ℕ)
    → IsFree kernel_end k xs
    → IsPage kernel_end v
    → NotIn v xs
    → (k' : KernelMem) × (pfree kernel_end k v ≡ ok k')
      × IsFree kernel_end k' (v ∷ xs)
      × SameOff v k.mem k'.mem
pfree-IsFree e k v xs c p out =
    let back = load32-store32_self k.mem v k.freelist (freelist-bound e k xs c) in
    let same = store32-SameOff k.mem v k.freelist in
    (
      pushed k v,
      pfree-ok e k v p,
      (refl, p, out, rw back (Chain-frame e k.mem _ k.freelist v xs p.aligned out same c)),
      same,
    )

-- `k` with `x`, the first page of the free list, handed out
abbrev pub popped : KernelMem → ℕ → KernelMem
popped k x = record k { freelist = load32 k.mem x }

pub palloc-some :
    (e : ℕ) (k : KernelMem) (x : ℕ) (xs : List ℕ)
    → IsFree e k (x ∷ xs)
    → (palloc k ≡ (x, popped k x)) × IsFree e (popped k x) xs
unfolding palloc
palloc-some e k x xs c =
    let from = c.1.from in
    let some_left : (k.freelist == 0) ≡ false = ground arith in (rw (some_left, c.0), c.3)

-- With pages left, `palloc` hands out the first page of the list, an address that is not 0, keeps
-- the others, and writes nothing.
pub palloc-cons :
    (kernel_end : ℕ) (k : KernelMem) (x : ℕ) (xs : List ℕ)
    → IsFree kernel_end k (x ∷ xs)
    → ((palloc k).0 ≡ x)
      × (x ≢ 0)
      × IsPage kernel_end x
      × NotIn x xs
      × IsFree kernel_end (palloc k).1 xs
      × ((palloc k).1.mem ≡ k.mem)
palloc-cons e k x xs c =
    let (got, left) = palloc-some e k x xs c in
    let from = c.1.from in rw got (refl, omega arith, c.1, c.2, left, refl)

-- With none left it returns 0 and changes nothing.
pub palloc-nil : (kernel_end : ℕ) (k : KernelMem) → IsFree kernel_end k [] → palloc k ≡ (0, k)
unfolding palloc
palloc-nil e k c = ground arith
