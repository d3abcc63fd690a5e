-- ===== src/Disk/Content.antt =====
-- kernel/fs/inode.c: reading and writing what inodes hold.
pub mod Bytes
pub mod Pieces
pub mod Stored
pub mod Direct
pub mod Written
pub mod RoundTrip
use melon_os.Common.{
  ℕ, zero, suc, ◌+◌, ◌-◌, ◌/◌, ◌%◌, ◌^◌, min, false, ◌||◌, ltb, ◌==◌, if◌then◌else◌, Option, none,
  some, List, [], ◌++◌, take, drop, length,
}
use melon_os.Common.Int.{ℤ, pos, negsuc}
use melon_os.Fs.Types.{FileType, Inode}
use melon_os.Disk.Types.{Call, returns, panics, spins, ◌>>=◌, SuperBlock, bsize}
use melon_os.Disk.Store.{BlockStore}
use melon_os.Disk.Dinode.{maxfile, ndev, overwrite}
use melon_os.Disk.Inode.{Files, inode_at, put_size, inode_flush, inode_load, inode_bmap}

module _ {S : Type 0} (store : BlockStore S) (sb : SuperBlock) where
  -- The loop of `inode_read` for the `left` bytes: what comes into the buffer. A round takes a byte
  -- at least, so there are at most as many rounds as bytes.
  unfoldable pub read_bytes : ℕ → Files S → ℕ → ℕ → ℕ → Call (List ℕ × Files S)
  read_bytes zero s i offset left = if left == 0 then returns ([], s) else spins
  read_bytes (suc k) s i offset left =
      let m = min left (bsize - offset % bsize) in
      let round : Call (List ℕ × Files S) = do
        (blockno, s1) ← inode_bmap store sb s i (offset / bsize)
        (b, d1) ← store.bcache_read s1.disk (inode_at s1 i).dev blockno false
        let bytes = take m (drop (offset % bsize) (store.cache d1 b))
        (rest, s2) ←
            read_bytes k (record s1 { disk = store.bcache_release d1 b }) i ((offset + m) % 2 ^ 32)
              (left - m)
        returns (bytes ++ rest, s2)
      in if left == 0 then returns ([], s) else round

  -- The loop of `inode_write` for the bytes that are left: the offset behind them.
  unfoldable pub write_bytes : ℕ → Files S → ℕ → ℕ → List ℕ → Call (ℕ × Files S)
  write_bytes zero s i offset buf = if length buf == 0 then returns (offset, s) else spins
  write_bytes (suc k) s i offset buf =
      let m = min (length buf) (bsize - offset % bsize) in
      let round : Call (ℕ × Files S) = do
        (blockno, s1) ← inode_bmap store sb s i (offset / bsize)
        (b, d1) ← store.bcache_read s1.disk (inode_at s1 i).dev blockno false
        let bytes = overwrite (store.cache d1 b) (offset % bsize) (take m buf)
        d2 ← store.bcache_write (store.put_cache d1 b bytes) b false
        write_bytes k (record s1 { disk = store.bcache_release d2 b }) i ((offset + m) % 2 ^ 32)
            (drop m buf)
      in if length buf == 0 then returns (offset, s) else round

  -- `if (!ino->read) inode_load(ino);`
  unfoldable pub load_first : Files S → ℕ → Call (Files S)
  load_first s i =
      if (inode_at s i).read
      then returns s
      else (do (done, s1) ← inode_load store sb s i; returns s1)

  unfoldable pub read_file : Files S → ℕ → ℕ → ℕ → Call (ℤ × List ℕ × Files S)
  read_file s i offset sz =
      let size = (inode_at s i).d.size in
      let n = if ltb size (offset + sz) then size - offset else sz in
      if ltb size offset || ltb (2 ^ 32 - 1 - offset) sz
      then returns (negsuc 0, [], s)
      else do (bytes, s1) ← read_bytes n s i offset n; returns (pos n, bytes, s1)

  -- `if (offset > ino->d.size) { ino->d.size = offset; inode_flush(ino); }`
  unfoldable pub note_size : Files S → ℕ → ℕ → Call (Files S)
  note_size s i end =
      if ltb (inode_at s i).d.size end then inode_flush store sb (put_size s i end) i else returns s

  unfoldable pub write_file : Files S → ℕ → List ℕ → ℕ → Call (ℤ × Files S)
  write_file s i buf offset =
      let size = (inode_at s i).d.size in
      let sz = length buf in
      if ltb size offset || ltb (2 ^ 32 - 1 - offset) sz || ltb maxfile (offset + sz)
      then returns (negsuc 0, s)
      else do
        (end, s1) ← write_bytes sz s i offset buf
        s2 ← note_size s1 i end
        returns (pos sz, s2)

  -- What the drivers in `devices` do: the result, and for a read the bytes in the buffer. A type that
  -- is none of the cases of the `switch` does not occur behind `inode_load`.
  module _ (dev_read : ℕ → Option (Inode → ℕ → ℤ × List ℕ)) where
    -- the `switch` of `inode_read`
    unfoldable pub read_by_type : FileType → Files S → ℕ → ℕ → ℕ → Call (ℤ × List ℕ × Files S)
    read_by_type FileType.none s i offset sz = panics
    read_by_type FileType.dir s i offset sz = read_file s i offset sz
    read_by_type FileType.file s i offset sz = read_file s i offset sz
    read_by_type FileType.dev s i offset sz =
        let ino = inode_at s i in
        if ltb ndev ino.d.major then returns (negsuc 0, [], s) else elim (dev_read ino.d.major) [
          | none ↦ returns (negsuc 0, [], s)
          | some read ↦ let (r, bytes) = read ino sz in returns (r, bytes, s)
        ]

    unfoldable pub inode_read : Files S → ℕ → ℕ → ℕ → Call (ℤ × List ℕ × Files S)
    inode_read s i offset sz = do
      s1 ← load_first s i
      read_by_type (inode_at s1 i).d.type s1 i offset sz

  module _ (dev_write : ℕ → Option (Inode → List ℕ → ℤ)) where
    -- the `switch` of `inode_write`
    unfoldable pub write_by_type : FileType → Files S → ℕ → List ℕ → ℕ → Call (ℤ × Files S)
    write_by_type FileType.none s i buf offset = panics
    write_by_type FileType.dir s i buf offset = write_file s i buf offset
    write_by_type FileType.file s i buf offset = write_file s i buf offset
    write_by_type FileType.dev s i buf offset =
        let ino = inode_at s i in
        if ltb ndev ino.d.major then returns (negsuc 0, s) else elim (dev_write ino.d.major) [
          | none ↦ returns (negsuc 0, s)
          | some write ↦ returns (write ino buf, s)
        ]

    unfoldable pub inode_write : Files S → ℕ → List ℕ → ℕ → Call (ℤ × Files S)
    inode_write s i buf offset = do
      s1 ← load_first s i
      write_by_type (inode_at s1 i).d.type s1 i buf offset
