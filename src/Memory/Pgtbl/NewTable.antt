-- ===== src/Memory/Pgtbl/NewTable.antt =====
-- The tables after `walk` has put a new table in an empty place of the directory.
use melon_os.Common.{
  ℕ, ◌+◌, ◌-◌, ◌*◌, ◌<◌, ◌≡◌, ◌∙◌, ◌≢◌, ◌⊎◌, inl, inr, List, ◌∷◌, ◌==◌, true, false, Store, arith,
  Bool-cases, ==_iff, sym, subst, ap,
}
use melon_os.Libc.Mem.{memset, memset_lem}
use melon_os.Memory.Word.{load32, store32, load32-zero, load32-store32_self, load32-store32_apart}
use melon_os.Memory.Layout.{page_sz, kern_base}
use melon_os.Memory.Palloc.Pages.{IsPage}
use melon_os.Memory.Palloc.FreeList.{NotIn, SameOff}
use melon_os.Memory.Pgtbl.{new_pde}
use melon_os.Memory.Pgtbl.Translate.{dir_entry, table_at, present, entry}
use melon_os.Memory.Pgtbl.Tables.{IsPgdir, word-other_page, store32-in_page, words-apart}
use melon_os.Memory.Pgtbl.Entries.{new_pde_lem}

-- A new table, the page `x`, in the directory's place `i`.
module _ (e : ℕ) (m : Store) (pgdir x i : ℕ) (xs : List ℕ) (wf : IsPgdir e m pgdir (x ∷ xs))
    (page : IsPage e x) (out : NotIn x xs) (hi : i < 1024)
    (off : present (dir_entry m pgdir i) ≡ false) where
  abbrev pub cleared : Store
  cleared = memset m x 0 page_sz

  abbrev pub added : Store
  added = store32 cleared (pgdir + 4 * i) (new_pde x)

  pub cleared-SameOff : SameOff x m cleared
  cleared-SameOff a (inl lo) = memset_lem m x 0 page_sz a ∙ ground arith
  cleared-SameOff a (inr up) = memset_lem m x 0 page_sz a ∙ ground arith

  pub added-SameOff : SameOff pgdir cleared added
  added-SameOff = store32-in_page e cleared pgdir i (new_pde x) hi

  dir_entry-added_ne :
      (d : ℕ) → d < 1024 → (d == i) ≡ false → dir_entry added pgdir d ≡ dir_entry m pgdir d
  dir_entry-added_ne d hd ne =
      load32-store32_apart cleared (pgdir + 4 * i) (new_pde x) (pgdir + 4 * d)
        (words-apart e pgdir i d ne)
      ∙ word-other_page e m cleared x pgdir d wf.dir_page page.aligned wf.dir_used.0 hd
          cleared-SameOff

  dir_entry-added : dir_entry added pgdir i ≡ x - kern_base + 7
  dir_entry-added =
      let lo = page.from in
      let up = page.below in
      load32-store32_self cleared (pgdir + 4 * i) (new_pde x) (omega (arith, new_pde_lem e x page))
      ∙ new_pde_lem e x page

  pub table_at-added : table_at added pgdir i ≡ x
  table_at-added = let lo = page.from in let al = page.aligned in rw dir_entry-added (omega arith)

  pub present-added : present (dir_entry added pgdir i) ≡ true
  present-added = let lo = page.from in let al = page.aligned in rw dir_entry-added (ground arith)

  -- A table of the new directory is the new page or a table that was there.
  origin :
      (d : ℕ)
      → d < 1024
      → present (dir_entry added pgdir d) ≡ true
      → ((d ≡ i) × (table_at added pgdir d ≡ x))
        ⊎ ((present (dir_entry m pgdir d) ≡ true) × (table_at added pgdir d ≡ table_at m pgdir d))
  origin d hd on = elim (Bool-cases (d == i)) [
    | inl eq ↦ let e' = (==_iff d i).0 eq in inl (e', ap (table_at added pgdir) e' ∙ table_at-added)
    | inr ne ↦ let kept = dir_entry-added_ne d hd ne in inr (rw kept at on, rw kept)
  ]

  old-ne : (d : ℕ) → d < 1024 → present (dir_entry m pgdir d) ≡ true → table_at m pgdir d ≢ x
  old-ne d hd on = (wf.table_used d hd on).0

  pub added-IsPgdir : IsPgdir e added pgdir xs
  added-IsPgdir = record {
    dir_page = wf.dir_page;
    dir_used = wf.dir_used.1;
    table_page = λ d hd on. elim (origin d hd on) [
      | inl o ↦ subst (IsPage e) (sym o.1) page
      | inr o ↦ subst (IsPage e) (sym o.1) (wf.table_page d hd o.0)
    ];
    table_used = λ d hd on. elim (origin d hd on) [
      | inl o ↦ subst (λ t. NotIn t xs) (sym o.1) out
      | inr o ↦ subst (λ t. NotIn t xs) (sym o.1) (wf.table_used d hd o.0).1
    ];
    table_ne = λ d hd on. elim (origin d hd on) [
      | inl o ↦ λ eq. wf.dir_used.0 (sym eq ∙ o.1)
      | inr o ↦ λ eq. wf.table_ne d hd o.0 (sym o.1 ∙ eq)
    ];
    apart = λ c d hc hd ne on on'. elim (origin c hc on) [
      | inl o ↦ elim (origin d hd on') [
        | inl o' ↦ λ eq. ne (o.0 ∙ sym o'.0)
        | inr o' ↦ λ eq. old-ne d hd o'.0 (sym o'.1 ∙ sym eq ∙ o.1)
      ]
      | inr o ↦ elim (origin d hd on') [
        | inl o' ↦ λ eq. old-ne c hc o.0 (sym o.1 ∙ eq ∙ o'.1)
        | inr o' ↦ λ eq. wf.apart c d hc hd ne o.0 o'.0 (sym o.1 ∙ eq ∙ o'.1)
      ]
    ];
  }

  new_word : (j : ℕ) → j < 1024 → load32 added (x + 4 * j) ≡ 0
  new_word j hj =
      let zero_before : load32 cleared (x + 4 * j) ≡ 0 =
        load32-zero cleared (x + 4 * j) λ b lo up. memset_lem m x 0 page_sz b ∙ ground arith in
      word-other_page e cleared added pgdir x j page wf.dir_page.aligned
        (λ eq. wf.dir_used.0 (sym eq)) hj added-SameOff
      ∙ zero_before

  old_word :
      (d j : ℕ)
      → d < 1024
      → j < 1024
      → present (dir_entry m pgdir d) ≡ true
      → load32 added (table_at m pgdir d + 4 * j) ≡ load32 m (table_at m pgdir d + 4 * j)
  old_word d j hd hj on =
      let table = wf.table_page d hd on in
      word-other_page e cleared added pgdir (table_at m pgdir d) j table wf.dir_page.aligned
        (wf.table_ne d hd on) hj added-SameOff
      ∙ word-other_page e m cleared x (table_at m pgdir d) j table page.aligned (old-ne d hd on) hj
          cleared-SameOff

  pub entry-added : (d j : ℕ) → d < 1024 → j < 1024 → entry added pgdir d j ≡ entry m pgdir d j
  unfolding entry
  entry-added d j hd hj = elim (Bool-cases (d == i)) [
    | inl eq ↦
        let e' = (==_iff d i).0 eq in rw (e', off, present-added, table_at-added) (new_word j hj)
    | inr ne ↦ rw (dir_entry-added_ne d hd ne) (elim (Bool-cases (present (dir_entry m pgdir d))) [
      | inl on ↦ rw on (old_word d j hd hj on)
      | inr absent ↦ rw absent
    ])
  ]
