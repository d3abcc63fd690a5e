-- ===== src/Fs/File.antt =====
-- kernel/fs/file.c: the table of open files. A pointer to a file is its place in `ftable`.
pub mod Refs
use melon_os.Common.{
  ℕ, zero, suc, ◌+◌, ◌-◌, Bool, true, false, ltb, leb, ◌==◌, if◌then◌else◌, Option, none, some,
  List, [], ◌∷◌, Result, ok, panic, get_or, set, find_from,
}
use melon_os.Common.Int.{ℤ, pos, negsuc}
use melon_os.Fs.Types.{FileType, DInode, Inode, FdType, File, FileState}

abbrev pub nfile : ℕ
nfile = 128

abbrev pub ninodes : ℕ
ninodes = 128

-- What a cell of a table holds before it is first used: zeros.
abbrev pub zero_file : File
zero_file = record {
  ino = 0;
  pipe = 0;
  offset = 0;
  type = FdType.none;
  nref = 0;
  readable = false;
  writable = false;
}

abbrev pub zero_inode : Inode
zero_inode = record {
  dev = 0;
  inum = 0;
  nref = pos 0;
  read = false;
  d = record { type = FileType.none; major = 0; minor = 0; nlink = 0; size = 0; addrs = [] };
}

abbrev pub file_at : FileState → ℕ → File
file_at s f = get_or s.ftable f zero_file

abbrev pub put_file : FileState → ℕ → File → FileState
put_file s f x = record s { ftable = set s.ftable f x }

-- `file_allocate`: the other fields keep what they held.
unfoldable pub file_allocate : FileState → Option ℕ × FileState
file_allocate s = elim (find_from (λ (f : File). f.nref == 0) s.ftable 0) [
  | none ↦ (none, s)
  | some i ↦ (some i, put_file s i (record (file_at s i) { nref = 1 }))
]

unfoldable pub file_dup : FileState → ℕ → Result FileState
file_dup s f =
    let x = file_at s f in
    if ltb x.nref 1 then panic else ok (put_file s f (record x { nref = x.nref + 1 }))

-- `ino->nref--` on an `int`
abbrev pub dec_ℤ : ℤ → ℤ
dec_ℤ (pos zero) = negsuc 0
dec_ℤ (pos (suc n)) = pos n
dec_ℤ (negsuc n) = negsuc (n + 1)

-- `inode_drop` of kernel/fs/inode.c
unfoldable pub inode_drop : FileState → ℕ → FileState
inode_drop s i =
    let ino = get_or s.icache i zero_inode in
    record s { icache = set s.icache i (record ino { nref = dec_ℤ ino.nref }) }

-- The `switch` of `file_close` on the type of the file that has been closed.
unfoldable pub drop_object : FdType → FileState → ℕ → FileState
drop_object FdType.inode s i = inode_drop s i
drop_object FdType.pipe s i = s
drop_object FdType.none s i = s

unfoldable pub file_close : FileState → ℕ → Result FileState
file_close s f =
    let x = file_at s f in
    if ltb x.nref 1
    then panic
    else if ltb 0 (x.nref - 1)
    then ok (put_file s f (record x { nref = x.nref - 1 }))
    else ok (drop_object x.type (put_file s f (record x { nref = 0; type = FdType.none })) x.ino)
