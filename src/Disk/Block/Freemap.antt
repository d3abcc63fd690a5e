-- ===== src/Disk/Block/Freemap.antt =====
-- kernel/fs/block.c: the map of free blocks on the disk, and what block_alloc gives.
use melon_os.Common.{
  ℕ, ◌+◌, ◌-◌, ◌/◌, ◌%◌, ◌^◌, ◌<◌, ◌≤◌, ◌≡◌, refl, sym, ap, ◌∙◌, Bool, true, false, ltb, ◌==◌,
  if◌then◌else◌, if-on, if-off, length, arith, ap₂, ==_refl, Bool-cases, inl, inr,
}
use melon_os.Disk.Types.{returns, SuperBlock, bsize}
use melon_os.Disk.Store.{BlockStore, StoreLaws, visit}
use melon_os.Disk.Block.{bits_per_blk, freemap_addr, bit_at, with_bit, freemap_check, freemap_set}
use melon_os.Disk.Block.Bytes.{bit_at-with_bit}

-- The block of the map that has the bit of a data block, and the bit in it.
abbrev pub map_block : SuperBlock → ℕ → ℕ
map_block sb n = ((n - sb.datastart) / bits_per_blk + sb.bmapstart) % 2 ^ 32

abbrev pub map_bit : SuperBlock → ℕ → ℕ
map_bit sb n = (n - sb.datastart) % bits_per_blk

-- A block that the map has a bit for.
pub record InMap (sb : SuperBlock) (n : ℕ) : Type 0 where
  pub from : sb.datastart ≤ n
  pub to : n ≤ sb.nblocks

freemap_addr-InMap :
    (sb : SuperBlock) (n : ℕ)
    → InMap sb n
    → freemap_addr sb n ≡ returns (record { bno = map_block sb n; nbit = map_bit sb n })
unfolding freemap_addr
freemap_addr-InMap sb n h =
    let low : ltb n sb.datastart ≡ false = ground (arith, h.from) in
    let high : ltb sb.nblocks n ≡ false = ground (arith, h.to) in rw (low, high) refl

module _ {S : Type 0} (store : BlockStore S) (laws : StoreLaws store) where
  -- The bit of a block on the disk.
  abbrev pub is_used : SuperBlock → S → ℕ → Bool
  is_used sb s n = bit_at (laws.block s (map_block sb n)) (map_bit sb n)

  pub freemap_check_lem :
      (sb : SuperBlock) (s : S) (dev n : ℕ)
      → InMap sb n
      → laws.Idle s
      → (s1 : S) × (freemap_check store sb s dev n ≡ returns (is_used sb s n, s1))
        × laws.Idle s1
        × ((m : ℕ) → laws.block s1 m ≡ laws.block s m)
  unfolding freemap_check
  freemap_check_lem sb s dev n h i =
      let (b, s1, eq, c, idle, keep, w) = visit store laws s dev (map_block sb n) false i in
      (store.bcache_release s1 b, rw (freemap_addr-InMap sb n h, eq, c) refl, idle, keep)

  freemap_set-block :
      (sb : SuperBlock) (s : S) (dev n : ℕ) (used : Bool)
      → InMap sb n
      → laws.Idle s
      → (s1 : S) × (freemap_set store sb s dev n used ≡ returns s1)
        × laws.Idle s1
        × ((m : ℕ)
            → laws.block s1 m ≡ (
                if m == map_block sb n
                then with_bit (laws.block s (map_block sb n)) (map_bit sb n) used
                else laws.block s m))
  unfolding freemap_set
  freemap_set-block sb s dev n used h i =
      let low : ltb n sb.datastart ≡ false = ground (arith, h.from) in
      let (b, s1, eq, c, idle, keep, w) = visit store laws s dev (map_block sb n) false i in
      let (s2, eq2, idle2, keep2) =
        w (with_bit (laws.block s (map_block sb n)) (map_bit sb n) used) in
      (
        store.bcache_release s2 b,
        rw (low, freemap_addr-InMap sb n h, eq, c, eq2) refl,
        idle2,
        keep2,
      )

  same_bit :
      (sb : SuperBlock) (n m : ℕ)
      → sb.bmapstart + sb.nblocks < 2 ^ 32
      → InMap sb n
      → InMap sb m
      → map_block sb m ≡ map_block sb n
      → (map_bit sb m == map_bit sb n) ≡ (m == n)
  same_bit sb n m small hn hm e =
      let e1 = hn.from in
      let e2 = hn.to in
      let e3 = hm.from in
      let e4 = hm.to in
      let quot : (m - sb.datastart) / bits_per_blk ≡ (n - sb.datastart) / bits_per_blk =
        omega arith in
      ground arith

  other_bit :
      (sb : SuperBlock) (n m : ℕ) → (map_block sb m == map_block sb n) ≡ false → (m == n) ≡ false
  other_bit sb n m e = elim (Bool-cases (m == n)) [
    | inl same ↦
        let q : m ≡ n = ground arith in
        let r : (map_block sb m == map_block sb n) ≡ true = rw q (==_refl (map_block sb n)) in cc
    | inr other ↦ other
  ]

  pub freemap_set-is_used :
      (sb : SuperBlock) (s : S) (dev n : ℕ) (used : Bool)
      → sb.bmapstart + sb.nblocks < 2 ^ 32
      → length (laws.block s (map_block sb n)) ≡ bsize
      → InMap sb n
      → laws.Idle s
      → (s1 : S) × (freemap_set store sb s dev n used ≡ returns s1)
        × laws.Idle s1
        × ((m : ℕ) → InMap sb m → is_used sb s1 m ≡ (if m == n then used else is_used sb s m))
  freemap_set-is_used sb s dev n used small len h i =
      let (s1, eq, idle, blocks) = freemap_set-block sb s dev n used h i in
      let old = laws.block s (map_block sb n) in
      (
        s1,
        eq,
        idle,
        λ m hm.
            ap (λ bytes. bit_at bytes (map_bit sb m)) (blocks (map_block sb m))
            ∙ elim (Bool-cases (map_block sb m == map_block sb n)) [
              | inl same ↦
                  let here : map_block sb m ≡ map_block sb n = ground arith in
                  ap (λ bytes. bit_at bytes (map_bit sb m)) (if-on _ _ same)
                  ∙ bit_at-with_bit old (map_bit sb n) (map_bit sb m) used (omega (arith, len))
                  ∙ ap₂ (λ c bytes. if c then used else bit_at bytes (map_bit sb m))
                      (same_bit sb n m small h hm here) (ap (laws.block s) (sym here))
              | inr other ↦
                  ap (λ bytes. bit_at bytes (map_bit sb m)) (if-off _ _ other)
                  ∙ sym (if-off used (is_used sb s m) (other_bit sb n m other))
            ],
      )

  -- Once `freemap_set` has marked a data block of the map as used or free, `freemap_check` says so
  -- of it, and of every other data block what it would have said before.
  pub freemap_check-set :
      (sb : SuperBlock) (s : S) (dev n : ℕ) (used : Bool)
      → sb.bmapstart + sb.nblocks < 2 ^ 32
      → length (laws.block s (map_block sb n)) ≡ bsize
      → InMap sb n
      → laws.Idle s
      → (s1 : S) × (freemap_set store sb s dev n used ≡ returns s1)
        × ((m : ℕ)
            → InMap sb m
            → (s2 : S) × (s3 : S) × (old : Bool) × (freemap_check store sb s dev m
                ≡ returns (old, s2))
              × (freemap_check store sb s1 dev m ≡ returns (if m == n then used else old, s3)))
  freemap_check-set sb s dev n used small len h i =
      let (s1, eq, idle, bits) = freemap_set-is_used sb s dev n used small len h i in
      (
        s1,
        eq,
        λ m hm.
            let (s2, eq2, idle2, keep2) = freemap_check_lem sb s dev m hm i in
            let (s3, eq3, idle3, keep3) = freemap_check_lem sb s1 dev m hm idle in
            (s2, s3, is_used sb s m, eq2, eq3 ∙ ap (λ c. returns (c, s3)) (bits m hm)),
      )
