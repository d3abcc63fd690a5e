-- ===== src/Disk/Block.antt =====
-- kernel/fs/block.c: the super block and the map of free blocks.
pub mod Bytes
pub mod Freemap
pub mod Alloc
use melon_os.Common.{
  ℕ, zero, suc, ◌+◌, ◌-◌, ◌*◌, ◌/◌, ◌%◌, ◌^◌, Bool, true, false, not, ltb, ◌==◌, if◌then◌else◌,
  Option, none, some, List, [], ◌∷◌, get_or, set, replicate, bit_and, bit_or,
}
use melon_os.Disk.Types.{Call, returns, panics, ◌>>=◌, SuperBlock, bsize}
use melon_os.Disk.Store.{BlockStore}

abbrev pub bits_per_blk : ℕ
bits_per_blk = bsize * 8

abbrev pub superblkno : ℕ
superblkno = 0

-- `FreemapAddr`
pub record FreemapAddr : Type 0 where
  pub bno : ℕ
  pub nbit : ℕ

unfoldable pub freemap_addr : SuperBlock → ℕ → Call FreemapAddr
freemap_addr sb blockno =
    let off = blockno - sb.datastart in
    if ltb blockno sb.datastart
    then panics
    else if ltb sb.nblocks blockno
    then panics
    else returns
        (record { bno = (off / bits_per_blk + sb.bmapstart) % 2 ^ 32; nbit = off % bits_per_blk })

-- `0x80 >> i`
abbrev pub mask : ℕ → ℕ
mask i = 128 / 2 ^ i

-- `freemap[addr.nbit / 8] & (0x80 >> (addr.nbit % 8))` as a truth value
abbrev pub bit_at : List ℕ → ℕ → Bool
bit_at freemap nbit = not (bit_and (get_or freemap (nbit / 8) 0) (mask (nbit % 8)) == 0)

-- `*byte |= m` and `*byte &= ~m` for an `unsigned char`
abbrev pub set_bit : Bool → ℕ → ℕ → ℕ
set_bit true byte m = bit_or byte m
set_bit false byte m = bit_and byte (255 - m)

-- The block of the map with the bit set or cleared.
abbrev pub with_bit : List ℕ → ℕ → Bool → List ℕ
with_bit freemap nbit used =
    set freemap (nbit / 8) (set_bit used (get_or freemap (nbit / 8) 0) (mask (nbit % 8)))

-- `for (; byte & (1 << 7); byte <<= 1, ++n);`: eight shifts empty the byte.
unfoldable pub leading_ones : ℕ → ℕ → ℕ
leading_ones zero byte = 0
leading_ones (suc k) byte =
    let rest = leading_ones k (byte * 2 % 256) in if bit_and byte 128 == 0 then 0 else suc rest

-- The loop of `freemap_search` over the bytes of the `off`-th block of the map.
unfoldable pub search_bytes : SuperBlock → ℕ → List ℕ → Option ℕ
search_bytes sb off [] = none
search_bytes sb off (byte ∷ bytes) =
    let rest = search_bytes sb off bytes in
    if byte == 0
    then some ((sb.datastart + off * bits_per_blk) % 2 ^ 32)
    else if not (bit_and byte 255 == 0)
    then some ((sb.datastart + off * bits_per_blk + leading_ones 8 byte) % 2 ^ 32)
    else rest

-- a 32-bit word in memory
abbrev pub word_at : List ℕ → ℕ → ℕ
word_at bytes i =
    get_or bytes i 0
    + get_or bytes (i + 1) 0 * 2 ^ 8
    + get_or bytes (i + 2) 0 * 2 ^ 16
    + get_or bytes (i + 3) 0 * 2 ^ 24

abbrev pub read_super : List ℕ → SuperBlock
read_super bytes = record {
  nblocks = word_at bytes 0;
  ninodes = word_at bytes 4;
  ndata = word_at bytes 8;
  inodestart = word_at bytes 12;
  bmapstart = word_at bytes 16;
  datastart = word_at bytes 20;
}

module _ {S : Type 0} (store : BlockStore S) where
  -- `block_super`: what `super_block` holds afterwards, and `*sb` as well
  unfoldable pub block_super : S → ℕ → SuperBlock → Bool → Call (SuperBlock × S)
  block_super s dev super_block false = returns (super_block, s)
  block_super s dev super_block true = do
    (b, s1) ← store.bcache_read s dev superblkno true
    returns (read_super (store.cache s1 b), store.bcache_release s1 b)

  unfoldable pub block_zero : S → ℕ → ℕ → Call S
  block_zero s dev blockno = do
    (b, s1) ← store.bcache_read s dev blockno false
    s2 ← store.bcache_write (store.put_cache s1 b (replicate bsize 0)) b false
    returns (store.bcache_release s2 b)

  module _ (sb : SuperBlock) where
    unfoldable pub freemap_check : S → ℕ → ℕ → Call (Bool × S)
    freemap_check s dev blockno = do
      addr ← freemap_addr sb blockno
      (b, s1) ← store.bcache_read s dev addr.bno false
      returns (bit_at (store.cache s1 b) addr.nbit, store.bcache_release s1 b)

    unfoldable pub freemap_set : S → ℕ → ℕ → Bool → Call S
    freemap_set s dev blockno used = if ltb blockno sb.datastart then panics else do
      addr ← freemap_addr sb blockno
      (b, s1) ← store.bcache_read s dev addr.bno false
      let bytes = with_bit (store.cache s1 b) addr.nbit used
      s2 ← store.bcache_write (store.put_cache s1 b bytes) b false
      returns (store.bcache_release s2 b)

    -- the loop over so many blocks of the map, from the `off`-th on
    unfoldable pub search_blocks : ℕ → S → ℕ → ℕ → Call (Option ℕ × S)
    search_blocks zero s dev off = returns (none, s)
    search_blocks (suc n) s dev off = do
      (b, s1) ← store.bcache_read s dev ((off + sb.bmapstart) % 2 ^ 32) false
      let found = search_bytes sb off (store.cache s1 b)
      let s2 = store.bcache_release s1 b
      elim found [ none ↦ search_blocks n s2 dev (off + 1) | some n ↦ returns (some n, s2) ]

    unfoldable pub freemap_search : S → ℕ → Call (Option ℕ × S)
    freemap_search s dev = search_blocks ((sb.datastart + (2 ^ 32 - sb.bmapstart)) % 2 ^ 32) s dev 0

    -- `block_alloc`; 0 when nothing is found
    unfoldable pub block_alloc : S → ℕ → Call (ℕ × S)
    block_alloc s dev = do
      (found, s1) ← freemap_search s dev
      elim found [
        | none ↦ returns (0, s1)
        | some fbno ↦
            if fbno == 0 then panics else (do s2 ← freemap_set s1 dev fbno true; returns (fbno, s2))
      ]

    unfoldable pub block_free : S → ℕ → ℕ → Call S
    block_free s dev blockno = do
      (used, s1) ← freemap_check s dev blockno
      if used then freemap_set s1 dev blockno false else panics
