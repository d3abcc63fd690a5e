-- ===== src/Memory/Pgtbl/Tables.antt =====
-- Well-formed page directories, and what writes into them change.
use melon_os.Common.{
  ℕ, ◌+◌, ◌*◌, ◌%◌, ◌<◌, ◌≤◌, ◌^◌, ◌≡◌, ◌≢◌, ◌⊎◌, inl, inr, List, ◌==◌, ◌&&◌, if◌then◌else◌, true,
  Store, arith, Bool-cases, ltb, false, ==_iff, ==_refl, refl, sym,
}
use melon_os.Memory.Word.{
  load32, store32, load32_cong, load32-store32_self, load32-store32_apart, store32_outside,
}
use melon_os.Memory.Layout.{page_sz}
use melon_os.Memory.Palloc.Pages.{IsPage}
use melon_os.Memory.Palloc.FreeList.{NotIn, SameOff}
use melon_os.Memory.Pgtbl.Translate.{dir_entry, table_at, present, entry}

module _ (kernel_end : ℕ) where
  -- The directory and the tables that it points to are distinct pages, none of them free.
  pub record IsPgdir (m : Store) (pgdir : ℕ) (free : List ℕ) : Type 0 where
    pub dir_page : IsPage kernel_end pgdir
    pub dir_used : NotIn pgdir free
    pub table_page :
        (i : ℕ)
        → i < 1024
        → present (dir_entry m pgdir i) ≡ true
        → IsPage kernel_end (table_at m pgdir i)
    pub table_used :
        (i : ℕ) → i < 1024 → present (dir_entry m pgdir i) ≡ true → NotIn (table_at m pgdir i) free
    pub table_ne :
        (i : ℕ) → i < 1024 → present (dir_entry m pgdir i) ≡ true → table_at m pgdir i ≢ pgdir
    pub apart :
        (i j : ℕ)
        → i < 1024
        → j < 1024
        → i ≢ j
        → present (dir_entry m pgdir i) ≡ true
        → present (dir_entry m pgdir j) ≡ true
        → table_at m pgdir i ≢ table_at m pgdir j

  -- The directories agree entry by entry.
  abbrev pub SameDir : Store → Store → ℕ → Type 0
  SameDir m m' pgdir = (d : ℕ) → d < 1024 → dir_entry m' pgdir d ≡ dir_entry m pgdir d

  -- Well-formedness rests on the directory alone, and on fewer free pages all the more.
  pub IsPgdir-cong :
      (m m' : Store) (pgdir : ℕ) (free free' : List ℕ)
      → SameDir m m' pgdir
      → ((x : ℕ) → NotIn x free → NotIn x free')
      → IsPgdir m pgdir free
      → IsPgdir m' pgdir free'
  IsPgdir-cong m m' pgdir free free' same fewer w = record {
    dir_page = w.dir_page;
    dir_used = fewer pgdir w.dir_used;
    table_page = λ i hi on. rw (same i hi) (w.table_page i hi (rw (same i hi) at on));
    table_used = λ i hi on. rw (same i hi) (fewer _ (w.table_used i hi (rw (same i hi) at on)));
    table_ne = λ i hi on. rw (same i hi) (w.table_ne i hi (rw (same i hi) at on));
    apart = λ i j hi hj ne on on'.
        rw (same i hi, same j hj)
          (w.apart i j hi hj ne (rw (same i hi) at on) (rw (same j hj) at on'));
  }

  -- Writes into one page do not touch the words of another.
  pub word-other_page :
      (m m' : Store) (v p i : ℕ)
      → IsPage kernel_end p
      → v % page_sz ≡ 0
      → p ≢ v
      → i < 1024
      → SameOff v m m'
      → load32 m' (p + 4 * i) ≡ load32 m (p + 4 * i)
  word-other_page m m' v p i page al ne h same =
      load32_cong m m' (p + 4 * i) λ b lo hi. same b (side b lo hi)
    where
      side : (b : ℕ) → p + 4 * i ≤ b → b < p + 4 * i + 4 → (b < v) ⊎ (v + page_sz ≤ b)
      side b lo hi =
          let al' = page.aligned in
          elim (Bool-cases (ltb b v)) [
            | inl low ↦ inl (ground arith)
            | inr high ↦ inr (ground arith)
          ]

  pub store32-in_page : (m : Store) (t j w : ℕ) → j < 1024 → SameOff t m (store32 m (t + 4 * j) w)
  store32-in_page m t j w h a (inl lo) = store32_outside m (t + 4 * j) w a (inl (omega arith))
  store32-in_page m t j w h a (inr hi) = store32_outside m (t + 4 * j) w a (inr (omega arith))

  pub words-apart :
      (t j j' : ℕ) → (j' == j) ≡ false → (t + 4 * j' + 4 ≤ t + 4 * j) ⊎ (t + 4 * j + 4 ≤ t + 4 * j')
  words-apart t j j' ne = elim (Bool-cases (ltb j' j)) [
    | inl lo ↦ inl (ground arith)
    | inr hi ↦ inr (ground arith)
  ]

  module _ (m : Store) (pgdir : ℕ) (free : List ℕ) (i j w : ℕ) (wf : IsPgdir m pgdir free)
      (hi : i < 1024) (hj : j < 1024) (hw : w < 2 ^ 32)
      (on : present (dir_entry m pgdir i) ≡ true) where
    abbrev written : Store
    written = store32 m (table_at m pgdir i + 4 * j) w

    in_page : SameOff (table_at m pgdir i) m written
    in_page = store32-in_page m (table_at m pgdir i) j w hj

    entry-store_dir : SameDir m written pgdir
    entry-store_dir d hd =
        word-other_page m written (table_at m pgdir i) pgdir d wf.dir_page
          (wf.table_page i hi on).aligned (λ e. wf.table_ne i hi on (sym e)) hd in_page

    entry-store_same :
        (j' : ℕ)
        → j' < 1024
        → entry written pgdir i j' ≡ (if j' == j then w else entry m pgdir i j')
    unfolding entry
    entry-store_same j' hj' =
        rw (entry-store_dir i hi, on)
          (elim (Bool-cases (j' == j)) [
            | inl same ↦
                rw ((==_iff j' j).0 same, ==_refl j)
                  (load32-store32_self m (table_at m pgdir i + 4 * j) w hw)
            | inr ne ↦ rw ne (
                load32-store32_apart m (table_at m pgdir i + 4 * j) w (table_at m pgdir i + 4 * j')
                  (words-apart (table_at m pgdir i) j j' ne))
          ])

    entry-store_other :
        (i' j' : ℕ)
        → i' < 1024
        → j' < 1024
        → i' ≢ i
        → entry written pgdir i' j' ≡ entry m pgdir i' j'
    unfolding entry
    entry-store_other i' j' hi' hj' ne =
        rw (entry-store_dir i' hi') (elim (Bool-cases (present (dir_entry m pgdir i'))) [
          | inl on' ↦ rw on' (
              word-other_page m written (table_at m pgdir i) (table_at m pgdir i') j'
                (wf.table_page i' hi' on') (wf.table_page i hi on).aligned
                (wf.apart i' i hi' hi ne on' on) hj' in_page)
          | inr off ↦ rw off refl
        ])

    -- Storing the entry `(i, j)` changes that entry and no other, and leaves the directory
    -- well-formed.
    pub entry-store :
        ((i' j' : ℕ)
          → i' < 1024
          → j' < 1024
          → entry written pgdir i' j' ≡ (if i' == i && j' == j then w else entry m pgdir i' j'))
        × IsPgdir written pgdir free
    entry-store = (
      λ i' j' hi' hj'. elim (Bool-cases (i' == i)) [
        | inl eq ↦ ground (arith, entry-store_same j' hj')
        | inr ne ↦ ground (arith, entry-store_other i' j' hi' hj')
      ],
      IsPgdir-cong m written pgdir free free entry-store_dir (λ x h. h) wf,
    )
