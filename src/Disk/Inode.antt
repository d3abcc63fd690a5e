-- ===== src/Disk/Inode.antt =====
-- kernel/fs/inode.c: the cache of inodes, and their blocks.
use melon_os.Common.{
  ℕ, zero, suc, ◌+◌, ◌-◌, ◌*◌, ◌/◌, ◌%◌, Bool, true, false, not, ◌&&◌, ◌||◌, ltb, ◌==◌,
  if◌then◌else◌, Option, none, some, List, get_or, set, find_from,
}
use melon_os.Common.Int.{ℤ, pos, negsuc, geb_ℕ}
use melon_os.Fs.Types.{FileType, Inode}
use melon_os.Fs.File.{zero_inode}
use melon_os.Disk.Types.{Call, returns, panics, ◌>>=◌, SuperBlock, bsize}
use melon_os.Disk.Store.{BlockStore}
use melon_os.Disk.Block.{word_at, block_alloc}
use melon_os.Disk.Dinode.{
  ndirect, dinode_size, inode_per_block, get_inode_block, overwrite, word_bytes, decode, encode,
}

-- `ino->nref++` on an `int`
abbrev pub inc_ℤ : ℤ → ℤ
inc_ℤ (pos n) = pos (n + 1)
inc_ℤ (negsuc zero) = pos 0
inc_ℤ (negsuc (suc n)) = negsuc n

abbrev pub is_zero_ℤ : ℤ → Bool
is_zero_ℤ (pos n) = n == 0
is_zero_ℤ (negsuc n) = false

-- `icache` and the disk below it. A pointer to an inode is its place in `icache`.
pub record Files (S : Type 0) : Type 0 where
  pub disk : S
  pub icache : List Inode

abbrev pub is_active : ℕ → ℕ → Inode → Bool
is_active dev inum ino = geb_ℕ ino.nref 0 && (ino.dev == dev) && (ino.inum == inum)

module _ {S : Type 0} where
  abbrev pub inode_at : Files S → ℕ → Inode
  inode_at s i = get_or s.icache i zero_inode

  abbrev pub put_inode : Files S → ℕ → Inode → Files S
  put_inode s i ino = record s { icache = set s.icache i ino }

  abbrev pub put_addr : Files S → ℕ → ℕ → ℕ → Files S
  put_addr s i nth blockno =
      let ino = inode_at s i in
      put_inode s i (record ino { d = record (ino.d) { addrs = set ino.d.addrs nth blockno } })

  abbrev pub put_size : Files S → ℕ → ℕ → Files S
  put_size s i size =
      let ino = inode_at s i in put_inode s i (record ino { d = record (ino.d) { size = size } })

  -- The loop goes on behind the array, where memory is not modelled, when no cell of it serves.
  unfoldable pub inode_getc : Files S → ℕ → ℕ → Option ℕ × Files S
  inode_getc s dev inum =
      elim (find_from (λ (ino : Inode). is_active dev inum ino || is_zero_ℤ ino.nref) s.icache 0) [
        | none ↦ (none, s)
        | some i ↦
            let ino = inode_at s i in
            if is_active dev inum ino
            then (some i, put_inode s i (record ino { nref = inc_ℤ ino.nref }))
            else (
              some i,
              put_inode s i (record ino { nref = pos 1; dev = dev; inum = inum; read = false }),
            )
      ]

  unfoldable pub inode_dup : Files S → ℕ → Files S
  inode_dup s i = let ino = inode_at s i in put_inode s i (record ino { nref = inc_ℤ ino.nref })

module _ {S : Type 0} (store : BlockStore S) (sb : SuperBlock) where
  abbrev pub inode_block : ℕ → ℕ
  inode_block inum = get_inode_block inum sb

  -- whether `b` holds the inode, and the inode with what is read from `b`
  unfoldable pub dinode_read : Files S → ℕ → ℕ → Bool × Files S
  dinode_read s i b =
      let ino = inode_at s i in
      let at = ino.inum % inode_per_block * dinode_size in
      if not (store.blockno s.disk b == inode_block ino.inum)
      then (false, s)
      else (true, put_inode s i (record ino { d = decode (store.cache s.disk b) at }))

  unfoldable pub dinode_write : Files S → ℕ → ℕ → Bool × Files S
  dinode_write s i b =
      let ino = inode_at s i in
      let at = ino.inum % inode_per_block * dinode_size in
      if not (store.blockno s.disk b == inode_block ino.inum) then (false, s) else (
        true,
        record s {
          disk = store.put_cache s.disk b (overwrite (store.cache s.disk b) at (encode ino.d));
        },
      )

  unfoldable pub inode_flush : Files S → ℕ → Call (Files S)
  inode_flush s i = do
    let ino = inode_at s i
    (b, d1) ← store.bcache_read s.disk ino.dev (inode_block ino.inum) false
    let s1 = (dinode_write (record s { disk = d1 }) i b).1
    d2 ← store.bcache_write s1.disk b false
    returns (record s1 { disk = store.bcache_release d2 b })

  abbrev pub is_none : FileType → Bool
  is_none FileType.none = true
  is_none FileType.dir = false
  is_none FileType.file = false
  is_none FileType.dev = false

  -- `inode_load` on a pointer that is not null
  unfoldable pub inode_load : Files S → ℕ → Call (Bool × Files S)
  inode_load s i =
      let ino = inode_at s i in
      if is_zero_ℤ ino.nref then returns (false, s) else if ino.read then returns (true, s) else do
        (b, d1) ← store.bcache_read s.disk ino.dev (inode_block ino.inum) false
        let s1 = (dinode_read (record s { disk = d1 }) i b).1
        let s2 = record s1 { disk = store.bcache_release s1.disk b }
        let s3 = put_inode s2 i (record (inode_at s2 i) { read = true })
        if is_none (inode_at s3 i).d.type then panics else returns (true, s3)

  -- a new block for the place `nth` of `addrs`
  unfoldable pub alloc_addr : Files S → ℕ → ℕ → Call (ℕ × Files S)
  alloc_addr s i nth = do
    (blockno, d1) ← block_alloc store sb s.disk (inode_at s i).dev
    s2 ← inode_flush (put_addr (record s { disk = d1 }) i nth blockno) i
    returns (blockno, s2)

  unfoldable pub bmap0 : Files S → ℕ → ℕ → Call (ℕ × Files S)
  bmap0 s i nth =
      let blockno = get_or (inode_at s i).d.addrs nth 0 in
      if blockno == 0 then alloc_addr s i nth else returns (blockno, s)

  -- a new block for the pointer at `offset` in the block of pointers `b`
  unfoldable pub fill_pointer : Files S → S → ℕ → ℕ → ℕ → Call (ℕ × Files S)
  fill_pointer s d1 b dev offset = do
    (fresh, d2) ← block_alloc store sb d1 dev
    let bytes = overwrite (store.cache d2 b) offset (word_bytes fresh)
    d3 ← store.bcache_write (store.put_cache d2 b bytes) b false
    returns (fresh, record s { disk = store.bcache_release d3 b })

  -- The number is read as the word at `offset` and written from the byte at `offset` on.
  unfoldable pub bmap1 : Files S → ℕ → ℕ → Call (ℕ × Files S)
  bmap1 s i nth = do
    let offset = nth - ndirect
    (ptrsno, s1) ← bmap0 s i ndirect
    let dev = (inode_at s1 i).dev
    (b, d1) ← store.bcache_read s1.disk dev ptrsno false
    let blockno = word_at (store.cache d1 b) (offset * 4)
    if blockno == 0
        then fill_pointer s1 d1 b dev offset
        else returns (blockno, record s1 { disk = store.bcache_release d1 b })

  unfoldable pub inode_bmap : Files S → ℕ → ℕ → Call (ℕ × Files S)
  inode_bmap s i nth = if ltb nth ndirect then bmap0 s i nth else bmap1 s i nth

  -- `if (!inode_bmap(ino, n)) panic("inode_offmap");` for so many blocks from `n` on
  unfoldable pub map_blocks : ℕ → Files S → ℕ → ℕ → Call (Files S)
  map_blocks zero s i n = returns s
  map_blocks (suc k) s i n = do
    (blockno, s1) ← inode_bmap s i n
    let rest = map_blocks k s1 i (n + 1)
    if blockno == 0 then panics else rest

  unfoldable pub inode_offmap : Files S → ℕ → ℕ → Call (Files S)
  inode_offmap s i offset =
      let n = offset / bsize + 1 in
      let extra = if ltb bsize offset && not (offset % bsize == 0) then 1 else 0 in
      if ltb offset (inode_at s i).d.size
      then returns s
      else do s1 ← map_blocks (n + extra) s i 0; returns (put_size s1 i offset)

  -- The loop of `inode_allocate` for so many inodes from `inum` on. A null `ino` is read from.
  unfoldable pub allocate_loop : ℕ → Files S → ℕ → FileType → ℕ → Call (Option ℕ × Files S)
  allocate_loop zero s dev type inum = panics
  allocate_loop (suc k) s dev type inum = do
    (b, d1) ← store.bcache_read s.disk dev (inode_block inum) false
    let (ino, s1) = inode_getc (record s { disk = d1 }) dev inum
    elim ino [
      | none ↦ panics
      | some i ↦
          let (here, s2) = dinode_read s1 i b in
          let old = inode_at s2 i in
          let s3 = put_inode s2 i (record old { dev = dev; d = record (old.d) { type = type } }) in
          let (stored, s4) = dinode_write s3 i b in
          let next =
            allocate_loop k (record s2 { disk = store.bcache_release s2.disk b }) dev type
              (inum + 1) in
          if not here
          then returns (none, s2)
          else if is_none old.d.type
          then (if not stored then returns (none, s4) else (do
            d5 ← store.bcache_write s4.disk b false
            returns (some i, record s4 { disk = store.bcache_release d5 b })))
          else next
    ]

  -- `inode_allocate`; `ROOTINO` is 1
  unfoldable pub inode_allocate : Files S → ℕ → FileType → Call (Option ℕ × Files S)
  inode_allocate s dev type = allocate_loop (sb.ninodes - 2) s dev type 2

-- `Stat`; its type is not filled in
pub record Stat : Type 0 where
  pub dev : ℕ
  pub inum : ℕ
  pub nlink : ℕ
  pub size : ℕ

unfoldable pub inode_stat : Inode → Stat
inode_stat ino = record { dev = ino.dev; inum = ino.inum; nlink = ino.d.nlink; size = ino.d.size }
