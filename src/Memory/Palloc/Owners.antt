-- ===== src/Memory/Palloc/Owners.antt =====
-- The allocator and its clients: who holds which page after any sequence of calls.
use melon_os.Common.{
  ℕ, ◌+◌, ◌≤◌, ◌<◌, ◌≡◌, ◌≢◌, List, [], ◌∷◌, Store, ok, panic, arith, ap, sym, ◌∙◌, subst, ◌==◌,
  if◌then◌else◌,
}
use melon_os.Memory.Palloc.{KernelMem, palloc, pfree}
use melon_os.Memory.Palloc.Pages.{IsPage}
use melon_os.Memory.Palloc.FreeList.{
  NotIn, IsFree, SameOff, Chain-frame, pfree-IsFree, palloc-cons, palloc-nil,
}

abbrev pub count : ℕ → List ℕ → ℕ
count a [] = 0
count a (x ∷ xs) = (if a == x then 1 else 0) + count a xs

-- one occurrence less
abbrev pub erase : ℕ → List ℕ → List ℕ
erase v [] = []
erase v (x ∷ xs) = if v == x then xs else x ∷ erase v xs

NotIn-count : (a : ℕ) (xs : List ℕ) → count a xs ≡ 0 → NotIn a xs
NotIn-count a [] h = tt
NotIn-count a (x ∷ xs) h = (ground arith, NotIn-count a xs (ground arith))

count-erase :
    (a v : ℕ) (xs : List ℕ)
    → 0 < count v xs
    → count a (erase v xs) + (if a == v then 1 else 0) ≡ count a xs
count-erase a v [] h = absurd (omega arith)
count-erase a v (x ∷ xs) h = ground (arith, count-erase a v xs)

-- The kernel's memory, and the pages that callers of `palloc` have not given back.
pub record System : Type 0 where
  pub kernel : KernelMem
  pub owned : List ℕ

module _ (kernel_end : ℕ) where
  -- One call of the allocator, or a write of an owner into its page.
  pub data Step : System → System → Type 0 where
    take :
        (s : System)
        → (palloc s.kernel).0 ≢ 0
        → Step s (record { kernel = (palloc s.kernel).1; owned = (palloc s.kernel).0 ∷ s.owned })
    starve :
        (s : System) → (palloc s.kernel).0 ≡ 0 → Step s (record s { kernel = (palloc s.kernel).1 })
    give :
        (s : System) (v : ℕ) (k : KernelMem)
        → 0 < count v s.owned
        → pfree kernel_end s.kernel v ≡ ok k
        → Step s (record { kernel = k; owned = erase v s.owned })
    scribble :
        (s : System) (v : ℕ) (m : Store)
        → 0 < count v s.owned
        → SameOff v s.kernel.mem m
        → Step s (record s { kernel = record { mem = m; freelist = s.kernel.freelist } })

  pub data Reach (s : System) : System → Type 0 where
    here : Reach s s
    next : {t u : System} → Reach s t → Step t u → Reach s u

  -- The pages `all` are distinct pages of the allocator.
  pub record IsPool (all : List ℕ) : Type 0 where
    pub once : (a : ℕ) → count a all ≤ 1
    pub page : (a : ℕ) → 0 < count a all → IsPage kernel_end a

  -- Each page of the pool is free or has one owner, never both; nothing else is free or owned.
  pub record IsAccounted (all : List ℕ) (s : System) : Type 0 where
    pub free : List ℕ
    pub is_free : IsFree kernel_end s.kernel free
    pub balance : (a : ℕ) → count a s.owned + count a free ≡ count a all

module _ (e : ℕ) (all : List ℕ) (pool : IsPool e all) where
  -- A page that is held is a page of the pool that is not free.
  held-page :
      {s : System} (v : ℕ)
      → (i : IsAccounted e all s) → 0 < count v s.owned
      → IsPage e v × NotIn v i.free
  held-page v i held = (
    pool.page v (omega (arith, i.balance v)),
    NotIn-count v i.free (omega (arith, i.balance v, pool.once v)),
  )

  take-IsAccounted :
      (s : System) (xs : List ℕ)
      → IsFree e s.kernel xs
      → ((a : ℕ) → count a s.owned + count a xs ≡ count a all)
      → (palloc s.kernel).0 ≢ 0
      → IsAccounted e all
          (record { kernel = (palloc s.kernel).1; owned = (palloc s.kernel).0 ∷ s.owned })
  take-IsAccounted s [] free bal found =
      absurd (found (ap (λ (r : ℕ × KernelMem). r.0) (palloc-nil e s.kernel free)))
  take-IsAccounted s (x ∷ xs) free bal found =
      let (got, ne, page, out, left, same) = palloc-cons e s.kernel x xs free in
      record { free = xs; is_free = left; balance = λ a. rw got (omega (arith, bal a)) }

  starve-IsAccounted :
      (s : System) (xs : List ℕ)
      → IsFree e s.kernel xs
      → ((a : ℕ) → count a s.owned + count a xs ≡ count a all)
      → (palloc s.kernel).0 ≡ 0
      → IsAccounted e all (record s { kernel = (palloc s.kernel).1 })
  starve-IsAccounted s [] free bal none_left =
      rw (palloc-nil e s.kernel free) (record { free = []; is_free = free; balance = bal })
  starve-IsAccounted s (x ∷ xs) free bal none_left =
      let (got, ne, page, out, left, same) = palloc-cons e s.kernel x xs free in
      absurd (ne (sym got ∙ none_left))

  give-IsAccounted :
      (s : System) (v : ℕ) (k : KernelMem)
      → IsAccounted e all s
      → 0 < count v s.owned
      → pfree e s.kernel v ≡ ok k
      → IsAccounted e all (record { kernel = k; owned = erase v s.owned })
  give-IsAccounted s v k i held freed =
      let (page, out) = held-page v i held in
      let (k', freed', free', same) = pfree-IsFree e s.kernel v i.free i.is_free page out in
      let e' : k' ≡ k = cc in
      record {
        free = v ∷ i.free;
        is_free = subst (λ q. IsFree e q (v ∷ i.free)) e' free';
        balance = λ a. omega (arith, i.balance a, count-erase a v s.owned held);
      }

  Step-IsAccounted : {s t : System} → IsAccounted e all s → Step e s t → IsAccounted e all t
  Step-IsAccounted i (take s found) = take-IsAccounted s i.free i.is_free i.balance found
  Step-IsAccounted i (starve s none_left) =
      starve-IsAccounted s i.free i.is_free i.balance none_left
  Step-IsAccounted i (give s v k held freed) = give-IsAccounted s v k i held freed
  Step-IsAccounted i (scribble s v m held same) =
      let (page, out) = held-page v i held in
      record {
        free = i.free;
        is_free =
            Chain-frame e s.kernel.mem m s.kernel.freelist v i.free page.aligned out same i.is_free;
        balance = i.balance;
      }

-- From a state in which the pages of a pool are accounted for, whatever sequence of `palloc`,
-- `pfree` of a page that is held, and writes of holders into their pages comes to pass, each page
-- of the pool is afterwards either free or held once, never both, and no other page is either.
pub Reach-IsAccounted :
    (kernel_end : ℕ) (all : List ℕ)
    → IsPool kernel_end all
    → {s t : System} → IsAccounted kernel_end all s
    → Reach kernel_end s t
    → IsAccounted kernel_end all t
Reach-IsAccounted e all pool i here = i
Reach-IsAccounted e all pool i (next r st) =
    Step-IsAccounted e all pool (Reach-IsAccounted e all pool i r) st

-- In such a state `pfree` of a page that is held does not panic, and a page that `palloc` hands
-- out is held by nobody.
pub calls-safe :
    (kernel_end : ℕ) (all : List ℕ) (s : System)
    → IsPool kernel_end all
    → IsAccounted kernel_end all s
    → ((v : ℕ) → 0 < count v s.owned → pfree kernel_end s.kernel v ≢ panic)
      × ((palloc s.kernel).0 ≢ 0 → count (palloc s.kernel).0 s.owned ≡ 0)
calls-safe e all s pool i = (
  λ v held stuck.
      let (page, out) = held-page e all pool v i held in
      let (k', freed, free', same) = pfree-IsFree e s.kernel v i.free i.is_free page out in cc,
  λ found. fresh i.free i.is_free i.balance found,
)
  where
    fresh :
        (xs : List ℕ)
        → IsFree e s.kernel xs
        → ((a : ℕ) → count a s.owned + count a xs ≡ count a all)
        → (palloc s.kernel).0 ≢ 0
        → count (palloc s.kernel).0 s.owned ≡ 0
    fresh [] free bal found =
        absurd (found (ap (λ (r : ℕ × KernelMem). r.0) (palloc-nil e s.kernel free)))
    fresh (x ∷ xs) free bal found =
        let (got, ne, page, out, left, same) = palloc-cons e s.kernel x xs free in
        rw got (ground (arith, bal x, pool.once x))
