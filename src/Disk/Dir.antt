-- ===== src/Disk/Dir.antt =====
-- kernel/fs/dir.c: directories and paths.
use melon_os.Common.{
  ℕ, zero, suc, ◌+◌, ◌-◌, ◌/◌, Bool, true, false, not, ◌&&◌, ltb, ◌==◌, if◌then◌else◌, Option, none,
  some, List, [], ◌∷◌, ◌++◌, get_or, take, drop,
}
use melon_os.Common.Int.{ℤ, pos, negsuc}
use melon_os.Libc.Str.{strncmp}
use melon_os.Libc.Spans.{strchr}
use melon_os.Libc.Tokens.{strtok_first}
use melon_os.Fs.Types.{FileType, Inode}
use melon_os.Fs.File.{dec_ℤ}
use melon_os.Disk.Types.{Call, returns, panics, spins, ◌>>=◌, SuperBlock}
use melon_os.Disk.Store.{BlockStore}
use melon_os.Disk.Block.{word_at}
use melon_os.Disk.Dinode.{word_bytes}
use melon_os.Disk.Inode.{
  Files, inode_at, put_inode, inode_getc, inode_load, inode_offmap, is_zero_ℤ,
}
use melon_os.Disk.Content.{inode_read, inode_write}

abbrev pub dirnamesz : ℕ
dirnamesz = 24

abbrev pub path_max : ℕ
path_max = 1024

-- `sizeof(DirEntry)`
abbrev pub entry_size : ℕ
entry_size = 4 + dirnamesz

pub record DirEntry : Type 0 where
  pub inum : ℕ
  pub name : List ℕ

abbrev pub entry_bytes : DirEntry → List ℕ
entry_bytes e = word_bytes e.inum ++ take dirnamesz e.name

abbrev pub read_entry : List ℕ → DirEntry
read_entry bytes = record { inum = word_at bytes 0; name = take dirnamesz (drop 4 bytes) }

-- Two names in memory, at 0 and at 32.
abbrev pub two_names : List ℕ → List ℕ → ℕ → ℕ
two_names a b i = if ltb i 32 then get_or a i 0 else get_or b (i - 32) 0

unfoldable pub dir_namecmp : List ℕ → List ℕ → ℤ
dir_namecmp a b = strncmp (two_names a b) 0 32 dirnamesz

abbrev pub is_dir : FileType → Bool
is_dir FileType.dir = true
is_dir FileType.file = false
is_dir FileType.dev = false
is_dir FileType.none = false

-- `r != sizeof(DirEntry)`
abbrev pub is_short : ℤ → Bool
is_short (pos n) = not (n == entry_size)
is_short (negsuc n) = true

abbrev pub has_slash : List ℕ → Bool
has_slash s = elim (strchr s 47) [ none ↦ false | some i ↦ true ]

module _ {S : Type 0} where
  -- `inode_drop` of kernel/fs/inode.c
  abbrev pub drop_inode : Files S → ℕ → Files S
  drop_inode s i = let ino = inode_at s i in put_inode s i (record ino { nref = dec_ℤ ino.nref })

module _ {S : Type 0} (store : BlockStore S) (sb : SuperBlock)
    (dev_read : ℕ → Option (Inode → ℕ → ℤ × List ℕ))
    (dev_write : ℕ → Option (Inode → List ℕ → ℤ)) where
  -- `inode_read(dir, (char *)&entry, off, sizeof(DirEntry))` with its panic
  unfoldable pub entry_at : Files S → ℕ → ℕ → Call (DirEntry × Files S)
  entry_at s dir off = do
    (r, bytes, s1) ← inode_read store sb dev_read s dir off entry_size
    if is_short r then panics else returns (read_entry bytes, s1)

  unfoldable pub put_entry : Files S → ℕ → ℕ → DirEntry → Call (Files S)
  put_entry s dir off e = do
    (r, s1) ← inode_write store sb dev_write s dir (entry_bytes e) off
    if is_short r then panics else returns s1

  -- The loop of `dir_lookup` from `off` on, for as many rounds as entries fit. `*offset` is left out:
  -- no caller reads it.
  unfoldable pub lookup_loop : ℕ → Files S → ℕ → List ℕ → ℕ → Call (Option ℕ × Files S)
  lookup_loop zero s dir name off = spins
  lookup_loop (suc k) s dir name off =
      let round : Call (Option ℕ × Files S) = do
        (e, s1) ← entry_at s dir off
        let rest = lookup_loop k s1 dir name (off + entry_size)
        if not (e.inum == 0) && is_zero_ℤ (dir_namecmp e.name name)
            then returns (inode_getc s1 (inode_at s1 dir).dev e.inum)
            else rest
      in if ltb off (inode_at s dir).d.size then round else returns (none, s)

  unfoldable pub dir_lookup : Files S → ℕ → List ℕ → Call (Option ℕ × Files S)
  dir_lookup s dir name =
      let d = (inode_at s dir).d in
      if not (is_dir d.type) then panics else lookup_loop (d.size / entry_size + 2) s dir name 0

  -- what `dir_link` does behind the last entry
  unfoldable pub append_entry : Files S → ℕ → DirEntry → ℕ → Call (Bool × Files S)
  append_entry s dir e off = do
    s1 ← inode_offmap store sb s dir (off + entry_size)
    s2 ← put_entry s1 dir off e
    returns (true, s2)

  -- The loop of `dir_link` that looks for an entry without inode, and what follows it.
  unfoldable pub fill_slot : ℕ → Files S → ℕ → DirEntry → ℕ → Call (Bool × Files S)
  fill_slot zero s dir e off = spins
  fill_slot (suc k) s dir e off =
      let round : Call (Bool × Files S) = do
        (old, s1) ← entry_at s dir off
        let rest = fill_slot k s1 dir e (off + entry_size)
        let fill : Call (Bool × Files S) = (do s2 ← put_entry s1 dir off e; returns (true, s2))
        if old.inum == 0 then fill else rest
      in if ltb off (inode_at s dir).d.size then round else append_entry s dir e off

  unfoldable pub dir_link : Files S → ℕ → DirEntry → Call (Bool × Files S)
  dir_link s dir e =
      let d = (inode_at s dir).d in
      if not (is_dir d.type) then panics else do
        (found, s1) ← dir_lookup s dir e.name
        elim found [
          | some i ↦ returns (false, s1)
          | none ↦ fill_slot (d.size / entry_size + 2) s1 dir e 0
        ]

  -- The `switch` of `dir_abspath` on the inode of a component, with what is left of the path; the
  -- case of a directory runs on into that of a file.
  unfoldable pub step_into : FileType → Files S → ℕ → ℕ → List ℕ → Call (Option ℕ × Files S)
  step_into FileType.none s dir ino left = panics
  step_into FileType.dir s dir ino left =
      if has_slash left then panics else returns (some ino, drop_inode s ino)
  step_into FileType.file s dir ino left =
      if has_slash left then panics else returns (some ino, drop_inode s ino)
  step_into FileType.dev s dir ino left =
      if has_slash left then panics else returns (some ino, drop_inode s ino)

  -- a component of the path
  unfoldable pub path_step : Files S → ℕ → Bool → List ℕ → List ℕ → Call (Option ℕ × Files S)
  path_step s dir parent tok left =
      let inside : Call (Option ℕ × Files S) = do
        (found, s1) ← dir_lookup s dir tok
        elim found [
          | none ↦ returns (none, drop_inode s1 dir)
          | some ino ↦ do
            (loaded, s2) ← inode_load store sb s1 ino
            step_into (inode_at s2 ino).d.type s2 dir ino left
        ]
      in if parent && not (has_slash left) then returns (some dir, drop_inode s dir) else inside

  -- `dir_abspath` on a path that is not null. Every component leads out of the loop, so the first is
  -- the only one. `ROOTDEV` and `ROOTINO` are 1.
  unfoldable pub dir_abspath : Files S → List ℕ → Bool → Call (Option ℕ × Files S)
  dir_abspath s path parent =
      let pathbuf = take (path_max - 1) path in
      let (tok, left) = strtok_first pathbuf (47 ∷ []) [] in
      let (root, s1) = inode_getc s 1 1 in
      let walk : ℕ → Call (Option ℕ × Files S) = λ dir. do
        (loaded, s2) ← inode_load store sb s1 dir
        elim tok [ none ↦ returns (none, s2) | some t ↦ path_step s2 dir parent t left ]
      in if not (get_or path 0 0 == 47) then returns (none, s) else elim root [
        | none ↦ elim tok [ none ↦ returns (none, s1) | some t ↦ panics ]
        | some dir ↦ walk dir
      ]
