-- ===== src/Disk/Block/Alloc.antt =====
-- kernel/fs/block.c: the block that block_alloc gives.
use melon_os.Common.{
  ℕ, suc, ◌+◌, ◌-◌, ◌/◌, ◌%◌, ◌^◌, ◌<◌, ◌≤◌, ◌≡◌, refl, sym, ap, ◌∙◌, true, false, ◌==◌,
  if◌then◌else◌, Option, none, some, List, ◌∷◌, get_or, length, arith, ap₂, Bool-cases, inl, inr,
  bit_and,
}
use melon_os.Common.Bits.{bit_and-ones}
use melon_os.Disk.Types.{Call, returns, SuperBlock, bsize}
use melon_os.Disk.Store.{BlockStore, StoreLaws, visit}
use melon_os.Disk.Block.{
  bit_at, leading_ones, search_bytes, freemap_set, search_blocks, freemap_search, block_alloc,
}
use melon_os.Disk.Block.Bytes.{on, leading_ones-first, leading_ones-zero}
use melon_os.Disk.Block.Freemap.{map_block, map_bit, InMap, is_used, freemap_set-is_used}

module _ {S : Type 0} (store : BlockStore S) (laws : StoreLaws store) where
  -- the data block that the first byte of the map leads to
  abbrev pub first_choice : SuperBlock → S → ℕ
  first_choice sb s = sb.datastart + leading_ones 8 (get_or (laws.block s sb.bmapstart) 0 0)

  search_first :
      (sb : SuperBlock) (byte : ℕ) (bytes : List ℕ)
      → byte < 256
      → sb.datastart + 8 < 2 ^ 32
      → search_bytes sb 0 (byte ∷ bytes) ≡ some (sb.datastart + leading_ones 8 byte)
  unfolding search_bytes
  search_first sb byte bytes h small =
      let le = (leading_ones-first 8 byte (omega arith)).0 in
      let low : bit_and byte 255 ≡ byte = bit_and-ones 8 byte ∙ omega arith in
      elim (Bool-cases (byte == 0)) [
        | inl empty ↦
            let none_set : byte ≡ 0 = ground arith in
            rw (empty, none_set, leading_ones-zero) (ap (λ n. some n) (omega arith))
        | inr some_set ↦
            let other : (bit_and byte 255 == 0) ≡ false = rw low some_set in
            rw (some_set, other) (ap (λ n. some n) (omega (arith, le)))
      ]

  search_step :
      (sb : SuperBlock) (n : ℕ) (s s1 : S) (dev off b r : ℕ)
      → store.bcache_read s dev ((off + sb.bmapstart) % 2 ^ 32) false ≡ returns (b, s1)
      → search_bytes sb off (store.cache s1 b) ≡ some r
      → search_blocks store sb (suc n) s dev off ≡ returns (some r, store.bcache_release s1 b)
  unfolding search_blocks
  search_step sb n s s1 dev off b r eq found =
      let s2 = store.bcache_release s1 b in
      let k : Option ℕ → Call (Option ℕ × S) = elim [
        | none ↦ search_blocks store sb n s2 dev (off + 1)
        | some m ↦ returns (some m, s2)
      ] in
      rw eq (ap k found)

  search_lem :
      (sb : SuperBlock) (s : S) (dev : ℕ) (byte : ℕ) (bytes : List ℕ)
      → sb.bmapstart < sb.datastart
      → sb.datastart + 8 < 2 ^ 32
      → laws.block s sb.bmapstart ≡ byte ∷ bytes
      → byte < 256
      → laws.Idle s
      → (s1 : S) × (freemap_search store sb s dev ≡ returns (some (first_choice sb s), s1))
        × laws.Idle s1
        × ((m : ℕ) → laws.block s1 m ≡ laws.block s m)
  unfolding freemap_search
  search_lem sb s dev byte bytes below small e h i =
      let start : (0 + sb.bmapstart) % 2 ^ 32 ≡ sb.bmapstart = omega arith in
      let rounds : (sb.datastart + (2 ^ 32 - sb.bmapstart)) % 2 ^ 32
          ≡ suc (sb.datastart - sb.bmapstart - 1) =
        omega arith in
      let (b, s1, eq, c, idle, keep, w) = visit store laws s dev sb.bmapstart false i in
      let found : search_bytes sb 0 (store.cache s1 b) ≡ some (first_choice sb s) =
        ap (search_bytes sb 0) (c ∙ e)
        ∙ search_first sb byte bytes h small
        ∙ ap (λ bs. some (sb.datastart + leading_ones 8 (get_or bs 0 0))) (sym e) in
      (
        store.bcache_release s1 b,
        rw rounds (
            search_step sb (sb.datastart - sb.bmapstart - 1) s s1 dev 0 b (first_choice sb s)
              (rw start eq) found),
        idle,
        keep,
      )

  near_bit :
      (sb : SuperBlock) (s : S) (r : ℕ)
      → sb.bmapstart < 2 ^ 32
      → r < 8
      → is_used store laws sb s (sb.datastart + r) ≡ on (get_or (laws.block s sb.bmapstart) 0 0) r
  near_bit sb s r small h =
      let here : map_block sb (sb.datastart + r) ≡ sb.bmapstart = omega arith in
      let bit : map_bit sb (sb.datastart + r) ≡ r = omega arith in
      let first : r / 8 ≡ 0 = omega arith in
      let rest : r % 8 ≡ r = omega arith in
      ap₂ (λ n k. bit_at (laws.block s n) k) here bit
      ∙ ap₂ (λ j k. on (get_or (laws.block s sb.bmapstart) j 0) k) first rest

  block_alloc-found :
      (sb : SuperBlock) (s s1 s2 : S) (dev n : ℕ)
      → freemap_search store sb s dev ≡ returns (some n, s1)
      → 0 < n
      → freemap_set store sb s1 dev n true ≡ returns s2
      → block_alloc store sb s dev ≡ returns (n, s2)
  unfolding block_alloc
  block_alloc-found sb s s1 s2 dev n found pos set_eq =
      let other : (n == 0) ≡ false = ground arith in rw found (rw other (rw set_eq refl))

  -- With a map that is not empty, `block_alloc` looks at the first byte of the map alone. It gives
  -- the first of the first eight data blocks that is free, or the ninth, used or not, when none of
  -- the eight is, and marks the block it gives and no other.
  pub block_alloc_lem :
      (sb : SuperBlock) (s : S) (dev : ℕ) (byte : ℕ) (bytes : List ℕ)
      → sb.bmapstart < sb.datastart
      → sb.datastart + 8 ≤ sb.nblocks
      → sb.bmapstart + sb.nblocks < 2 ^ 32
      → length (laws.block s sb.bmapstart) ≡ bsize
      → laws.block s sb.bmapstart ≡ byte ∷ bytes
      → byte < 256
      → laws.Idle s
      → (n : ℕ) × (s1 : S) × (block_alloc store sb s dev ≡ returns (n, s1))
        × (sb.datastart ≤ n)
        × (n ≤ sb.datastart + 8)
        × (n < sb.datastart + 8 → is_used store laws sb s n ≡ false)
        × ((m : ℕ) → sb.datastart ≤ m → m < n → is_used store laws sb s m ≡ true)
        × ((m : ℕ)
            → InMap sb m
            → is_used store laws sb s1 m ≡ (if m == n then true else is_used store laws sb s m))
        × laws.Idle s1
  block_alloc_lem sb s dev byte bytes below room small len e h i =
      let first = get_or (laws.block s sb.bmapstart) 0 0 in
      let n = first_choice sb s in
      let (le, stop, before) = leading_ones-first 8 first (omega arith) in
      let in_map : InMap sb n = record { from = omega arith; to = omega (arith, le) } in
      let (s1, found, idle1, keep1) = search_lem sb s dev byte bytes below (omega arith) e h i in
      let home : map_block sb n ≡ sb.bmapstart = omega (arith, le) in
      let size : length (laws.block s1 (map_block sb n)) ≡ bsize =
        ap length (keep1 (map_block sb n) ∙ ap (laws.block s) home) ∙ len in
      let (s2, set_eq, idle2, bits) =
        freemap_set-is_used store laws sb s1 dev n true small size in_map idle1 in
      (
        n,
        s2,
        block_alloc-found sb s s1 s2 dev n found (omega arith) set_eq,
        omega arith,
        omega (arith, le),
        λ lt. near_bit sb s (leading_ones 8 first) (omega arith) (omega arith) ∙ stop (omega arith),
        λ m lo hi.
            let off : sb.datastart + (m - sb.datastart) ≡ m = omega arith in
            ap (is_used store laws sb s) (sym off)
            ∙ near_bit sb s (m - sb.datastart) (omega arith) (omega (arith, le))
            ∙ before (m - sb.datastart) (omega arith),
        λ m hm.
            bits m hm
            ∙ ap (λ old. if m == n then true else bit_at old (map_bit sb m))
                (keep1 (map_block sb m)),
        idle2,
      )
