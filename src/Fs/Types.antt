-- ===== src/Fs/Types.antt =====
-- kernel/fs/fdefs.h and fdefs.fwd.h: inodes and open files.
use melon_os.Common.{ℕ, Bool, List}
use melon_os.Common.Int.{ℤ}

-- `FileType`; `none` is the 0 of a free inode.
pub data FileType : Type 0 where
  none dir file dev : FileType

pub record DInode : Type 0 where
  pub type : FileType
  pub major : ℕ
  pub minor : ℕ
  pub nlink : ℕ
  pub size : ℕ
  pub addrs : List ℕ

-- The mutex of an inode is left out.
pub record Inode : Type 0 where
  pub dev : ℕ
  pub inum : ℕ
  pub nref : ℤ
  pub read : Bool
  pub d : DInode

-- `FDType`
pub data FdType : Type 0 where
  none pipe inode : FdType

-- `File`. `ino` is the place of the inode in `icache`, `pipe` the address of the pipe's page. A
-- count is never below 0: `file_close` takes 1 from a count that is not 0.
pub record File : Type 0 where
  pub ino : ℕ
  pub pipe : ℕ
  pub offset : ℕ
  pub type : FdType
  pub nref : ℕ
  pub readable : Bool
  pub writable : Bool

-- `ftable` and `icache`
pub record FileState : Type 0 where
  pub ftable : List File
  pub icache : List Inode
