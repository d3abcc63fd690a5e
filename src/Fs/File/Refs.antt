-- ===== src/Fs/File/Refs.antt =====
-- Reference counts of open files.
use melon_os.Common.{
  ℕ, zero, suc, ◌+◌, ◌-◌, ◌<◌, ◌≡◌, refl, ◌≢◌, ◌⊎◌, inl, inr, ltb, ◌==◌, if◌then◌else◌, none, some,
  List, ok, panic, get_or, set, length, get_or-set_self, get_or-set_ne, set-set, set-get_or,
  find_from, find_from-some, find_from-none, Option-cases, Bool, true, false, arith, ap, sym, ◌∙◌,
}
use melon_os.Fs.Types.{FdType, Inode, File, FileState}
use melon_os.Fs.File.{
  zero_file, zero_inode, dec_ℤ, file_at, put_file, file_allocate, file_dup, file_close, drop_object,
  inode_drop,
}

-- `file_allocate` returns the first file of the table that nobody refers to, with the count 1, and
-- changes nothing else; it returns 0, and changes nothing, exactly when every file is in use.
pub file_allocate_lem :
    (s : FileState)
    → ((i : ℕ) × (file_allocate s ≡ (some i, put_file s i (record (file_at s i) { nref = 1 })))
        × (i < length s.ftable)
        × ((file_at s i).nref ≡ 0)
        × ((j : ℕ) → j < i → (file_at s j).nref ≢ 0))
      ⊎ ((file_allocate s ≡ (none, s)) × ((j : ℕ) → j < length s.ftable → (file_at s j).nref ≢ 0))
unfolding file_allocate
file_allocate_lem s =
    let unused = λ (f : File). f.nref == 0 in
    elim (Option-cases (find_from unused s.ftable 0)) [
      | inl nothing ↦ inr (
        rw (nothing, file_allocate),
        λ j lt. ground (arith, find_from-none unused s.ftable zero_file 0 nothing j lt),
      )
      | inr (i, found) ↦
          let (d, eq, first) = find_from-some unused s.ftable zero_file 0 i found in
          let within = first.within in
          let passes = first.passes in
          let same : d ≡ i = omega arith in
          inl (
            i,
            rw (found, file_allocate),
            omega arith,
            rw (← same) (ground arith),
            λ j lt. ground (arith, first.earlier j),
          )
    ]

-- A reference that `file_dup` adds, `file_close` takes away again, and the state is as before.
pub file_close-dup :
    (s : FileState) (f : ℕ)
    → 0 < (file_at s f).nref
    → f < length s.ftable
    → (s' : FileState) × (file_dup s f ≡ ok s') × (file_close s' f ≡ ok s)
unfolding file_dup file_close
file_close-dup s f used within =
    let x = file_at s f in
    let up : File = record x { nref = x.nref + 1 } in
    let guard : ltb x.nref 1 ≡ false = ground arith in
    let seen : file_at (put_file s f up) f ≡ up = get_or-set_self s.ftable f up zero_file within in
    let guard' : ltb (x.nref + 1) 1 ≡ false = ground arith in
    let more : ltb 0 (x.nref + 1 - 1) ≡ true = ground arith in
    let less : x.nref + 1 - 1 ≡ x.nref = omega arith in
    (
      put_file s f up,
      rw guard,
      rw (seen, guard', more, less)
          (ap (λ t. ok (record s { ftable = t }))
            (set-set s.ftable f up x ∙ set-get_or s.ftable f zero_file)),
    )

-- the inodes after `ino->nref--` at place `i`
abbrev pub dropped : List Inode → ℕ → List Inode
dropped inodes i =
    let ino = get_or inodes i zero_inode in set inodes i (record ino { nref = dec_ℤ ino.nref })

abbrev pub is_inode : FdType → Bool
is_inode FdType.inode = true
is_inode FdType.pipe = false
is_inode FdType.none = false

drop_object_lem :
    (t : FdType) (s : FileState) (i : ℕ)
    → ((drop_object t s i).ftable ≡ s.ftable)
      × ((drop_object t s i).icache ≡ (if is_inode t then dropped s.icache i else s.icache))
unfolding drop_object inode_drop
drop_object_lem FdType.inode s i = (refl, refl)
drop_object_lem FdType.pipe s i = (refl, refl)
drop_object_lem FdType.none s i = (refl, refl)

-- What `file_close` does, on every branch: without a reference it panics; one reference of several
-- is taken away and nothing else changes; with the last one the file becomes free, and the inode
-- of a file on disk, but no pipe, loses a reference.
pub file_close_lem :
    (s : FileState) (f : ℕ)
    → f < length s.ftable
    → (((file_at s f).nref ≡ 0) × (file_close s f ≡ panic))
      ⊎ ((1 < (file_at s f).nref)
          × (file_close s f
              ≡ ok (put_file s f (record (file_at s f) { nref = (file_at s f).nref - 1 }))))
      ⊎ (((file_at s f).nref ≡ 1)
          × ((s' : FileState) × (file_close s f ≡ ok s')
              × ((file_at s' f).nref ≡ 0)
              × ((j : ℕ) → j ≢ f → file_at s' j ≡ file_at s j)
              × (s'.icache ≡ (
                  if is_inode (file_at s f).type
                  then dropped s.icache (file_at s f).ino
                  else s.icache))))
unfolding file_close
file_close_lem s f within = by_count (file_at s f).nref refl
  where
    x : File
    x = file_at s f

    closed : FileState
    closed = put_file s f (record x { nref = 0; type = FdType.none })

    by_count :
        (n : ℕ)
        → x.nref ≡ n
        → ((x.nref ≡ 0) × (file_close s f ≡ panic))
          ⊎ ((1 < x.nref) × (file_close s f ≡ ok (put_file s f (record x { nref = x.nref - 1 }))))
          ⊎ ((x.nref ≡ 1)
              × ((s' : FileState) × (file_close s f ≡ ok s')
                  × ((file_at s' f).nref ≡ 0)
                  × ((j : ℕ) → j ≢ f → file_at s' j ≡ file_at s j)
                  × (s'.icache ≡ (if is_inode x.type then dropped s.icache x.ino else s.icache))))
    by_count zero e = inl (e, ground arith)
    by_count (suc zero) e =
        let (files, inodes) = drop_object_lem x.type closed x.ino in
        inr (
          inr (
            e,
            (
              drop_object x.type closed x.ino,
              ground arith,
              ap (λ t. (get_or t f zero_file).nref) files
                  ∙ ap (λ (y : File). y.nref)
                      (get_or-set_self s.ftable f (record x { nref = 0; type = FdType.none })
                        zero_file within),
              λ j ne.
                  ap (λ t. get_or t j zero_file) files
                  ∙ get_or-set_ne s.ftable f j _ zero_file (λ q. ne (sym q)),
              inodes,
            ),
          ))
    by_count (suc (suc n)) e = inr (inl (omega arith, ground arith))
