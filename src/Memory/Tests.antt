-- ===== src/Memory/Tests.antt =====
-- A memory of zeros, with a directory and a free page behind a kernel of two megabytes.
use melon_os.Common.{
  ℕ, ◌+◌, ◌-◌, ◌*◌, ◌/◌, ◌%◌, ◌^◌, ◌<◌, ◌≤◌, ◌≡◌, refl, ◌≢◌, ◌⊎◌, Bool, true, false, some, List, [],
  ◌∷◌, Store, ok, panic, arith,
}
use melon_os.Memory.Layout.{page_sz}
use melon_os.Memory.Word.{load32}
use melon_os.Memory.Mmu.{page_alignup, page_alignup_lem}
use melon_os.Memory.Palloc.{KernelMem, palloc, pfree, palloc_init}
use melon_os.Memory.Palloc.Pages.{IsPage, pushed, pfree_cases}
use melon_os.Memory.Palloc.FreeList.{IsFree, palloc-cons, NotIn}
use melon_os.Memory.Palloc.Range.{pages, palloc_init-IsFree}
use melon_os.Memory.Palloc.Owners.{
  System, Step, Reach, IsPool, IsAccounted, count, Reach-IsAccounted, calls-safe,
}
use melon_os.Memory.Pgtbl.{map_pages}
use melon_os.Memory.Pgtbl.Translate.{translate, present, dir_entry, entry}
use melon_os.Memory.Pgtbl.Tables.{IsPgdir}
use melon_os.Memory.Pgtbl.Map.{page_entry}
use melon_os.Memory.Pgtbl.MapPages.{vmap, InRange, map_pages-translate}

abbrev kernel_end : ℕ
kernel_end = 0x80200000

abbrev zeros : Store
zeros a = 0

abbrev dir : ℕ
dir = 0x80400000

abbrev page : ℕ
page = 0x80300000

abbrev one_page : KernelMem
one_page = record { mem = zeros; freelist = page }

page-IsPage : IsPage kernel_end page
page-IsPage = record {
  above = omega arith;
  aligned = omega arith;
  from = omega arith;
  below = omega arith;
}

one_page-IsFree : IsFree kernel_end one_page (page ∷ [])
unfolding load32
one_page-IsFree = (refl, page-IsPage, tt, omega arith)

zeros-absent : (i : ℕ) → present (dir_entry zeros dir i) ≡ false
unfolding load32
zeros-absent i = ground arith

dir-IsPgdir : IsPgdir kernel_end zeros dir (page ∷ [])
dir-IsPgdir = record {
  dir_page = record {
    above = omega arith;
    aligned = omega arith;
    from = omega arith;
    below = omega arith;
  };
  dir_used = ((λ e. omega (arith, e)), tt);
  table_page = λ i h on. absurd (off i on);
  table_used = λ i h on. absurd (off i on);
  table_ne = λ i h on. absurd (off i on);
  apart = λ i j hi hj ne on on'. absurd (off i on);
}
  where
    off : (i : ℕ) → present (dir_entry zeros dir i) ≢ true
    off i on = cc (zeros-absent i)

zeros-unmapped : (p : ℕ) → 5 ≤ p → p < 5 + 1 → present (page_entry zeros dir p) ≡ false
unfolding entry page_entry
zeros-unmapped p lo hi = rw (zeros-absent (p / 1024)) (ground arith)

map_pages-translate_example :
    let n : ℕ = 1 in
    let vp : ℕ = 5 in
    let pa : ℕ = 0x100000 in
    (mapped : Bool) × (k' : KernelMem) × (left : List ℕ) × (map_pages one_page dir (vmap vp n pa 2)
      ≡ ok (mapped, k'))
    × IsFree kernel_end k' left
    × IsPgdir kernel_end k'.mem dir left
    × ((va : ℕ)
        → va < 2 ^ 32
        → InRange vp n va
        → mapped ≡ true
        → translate k'.mem dir va ≡ some (pa + (va - vp * page_sz)))
    × ((va : ℕ)
        → va < 2 ^ 32
        → ¬ (InRange vp n va)
        → translate k'.mem dir va ≡ translate zeros dir va)
    × (mapped ≡ false → left ≡ [])
map_pages-translate_example =
    map_pages-translate kernel_end 1 one_page dir 5 0x100000 2 (page ∷ []) (omega arith)
      (omega arith) (omega arith) (omega arith) (omega arith) (omega arith) (omega arith)
      zeros-unmapped one_page-IsFree dir-IsPgdir

-- the page handed out and given back
abbrev start : System
start = record { kernel = one_page; owned = [] }

start-IsPool : IsPool kernel_end (page ∷ [])
start-IsPool = record {
  once = λ a. ground arith;
  page = λ a h. let eq : a ≡ page = ground arith in omega (arith, eq);
}

start-IsAccounted : IsAccounted kernel_end (page ∷ []) start
start-IsAccounted = record {
  free = page ∷ [];
  is_free = one_page-IsFree;
  balance = λ a. omega arith;
}

abbrev held_page : System
unfolding palloc
held_page = record { kernel = (palloc one_page).1; owned = page ∷ [] }

taken : Reach kernel_end start held_page
unfolding palloc
taken = Reach.next Reach.here (Step.take start (λ e. omega (arith, e)))

Reach-IsAccounted_example : IsAccounted kernel_end (page ∷ []) held_page
Reach-IsAccounted_example =
    Reach-IsAccounted kernel_end (page ∷ []) start-IsPool start-IsAccounted taken

calls-safe_example :
    ((v : ℕ) → 0 < count v start.owned → pfree kernel_end start.kernel v ≢ panic)
    × ((palloc start.kernel).0 ≢ 0 → count (palloc start.kernel).0 start.owned ≡ 0)
calls-safe_example = calls-safe kernel_end (page ∷ []) start start-IsPool start-IsAccounted

pfree_cases_example :
    (IsPage kernel_end 0x80300001
      × (pfree kernel_end one_page 0x80300001 ≡ ok (pushed one_page 0x80300001)))
    ⊎ ((¬ (IsPage kernel_end 0x80300001)) × (pfree kernel_end one_page 0x80300001 ≡ panic))
pfree_cases_example = pfree_cases kernel_end one_page 0x80300001 (omega arith)

palloc-cons_example :
    ((palloc one_page).0 ≡ page)
    × (page ≢ 0)
    × IsPage kernel_end page
    × NotIn page []
    × IsFree kernel_end (palloc one_page).1 []
    × ((palloc one_page).1.mem ≡ zeros)
palloc-cons_example = palloc-cons kernel_end one_page page [] one_page-IsFree

palloc_init-IsFree_example :
    let k : KernelMem = record { mem = zeros; freelist = 0 } in
    (k' : KernelMem) × (palloc_init kernel_end k page (page + 8192) ≡ ok k')
    × IsFree kernel_end k' (pages page ((page + 8192 - page) / page_sz) [])
palloc_init-IsFree_example =
    palloc_init-IsFree kernel_end (record { mem = zeros; freelist = 0 }) page (page + 8192) [] refl
      tt (omega arith) (omega arith) (omega arith) (omega arith)

page_alignup_lem_example :
    (page_alignup 5000 % page_sz ≡ 0)
    × (5000 ≤ page_alignup 5000)
    × (page_alignup 5000 < 5000 + page_sz)
page_alignup_lem_example = page_alignup_lem 5000 (omega arith)
