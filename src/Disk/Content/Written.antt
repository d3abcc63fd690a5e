-- ===== src/Disk/Content/Written.antt =====
-- kernel/fs/inode.c: writing to files whose blocks the inode names itself.
use melon_os.Common.{
  ℕ, zero, suc, ◌+◌, ◌-◌, ◌*◌, ◌/◌, ◌%◌, ◌^◌, ◌<◌, ◌≤◌, ◌≡◌, ◌≢◌, refl, sym, ap, ap₂, ◌∙◌, true,
  false, ◌&&◌, ltb, leb, ◌==◌, ==_iff, if◌then◌else◌, if-on, if-off, List, get_or, take, drop,
  length, length-take, length-drop, arith, Bool-cases, inl, inr,
}
use melon_os.Disk.Types.{returns, SuperBlock, bsize}
use melon_os.Disk.Store.{BlockStore, StoreLaws, visit}
use melon_os.Disk.Dinode.{overwrite}
use melon_os.Disk.Inode.{Files, inode_at, inode_bmap}
use melon_os.Disk.Content.{write_bytes}
use melon_os.Disk.Content.Bytes.{length-overwrite, get_or-overwrite}
use melon_os.Disk.Content.Pieces.{leb_shift, ltb_shift, apart_test, in_block, join_writes}
use melon_os.Disk.Content.Direct.{file_byte, IsMapped, IsMapped-disk, bmap-IsMapped, span}

module _ {S : Type 0} (store : BlockStore S) (laws : StoreLaws store) (sb : SuperBlock) where
  write_round :
      (k : ℕ) (s s2 : Files S) (d1 d2 : S) (i offset blockno b end : ℕ) (buf : List ℕ)
      → (length buf == 0) ≡ false
      → inode_bmap store sb s i (offset / bsize) ≡ returns (blockno, s)
      → store.bcache_read s.disk (inode_at s i).dev blockno false ≡ returns (b, d1)
      → store.bcache_write
          (store.put_cache d1 b
            (overwrite (store.cache d1 b) (offset % bsize) (take (span offset (length buf)) buf)))
          b
          false
        ≡ returns d2
      → write_bytes store sb k
          (record s { disk = store.bcache_release d2 b })
          i
          ((offset + span offset (length buf)) % 2 ^ 32)
          (drop (span offset (length buf)) buf)
        ≡ returns (end, s2)
      → write_bytes store sb (suc k) s i offset buf ≡ returns (end, s2)
  unfolding write_bytes
  write_round k s s2 d1 d2 i offset blockno b end buf some_left map_eq read_eq write_eq rest_eq =
      rw some_left (rw map_eq (rw read_eq (rw write_eq (rw rest_eq refl))))

  -- The bytes of a file behind a write of `buf` at `offset`.
  abbrev pub written_byte : Files S → ℕ → ℕ → List ℕ → ℕ → ℕ
  written_byte s i offset buf p =
      if leb offset p && ltb p (offset + length buf)
      then get_or buf (p - offset) 0
      else file_byte store laws sb s i p

  pub record IsWritten (s s1 : Files S) (i offset end : ℕ) (buf : List ℕ) : Type 0 where
    pub idle : laws.Idle s1.disk
    pub same_cache : s1.icache ≡ s.icache
    pub sizes : (n : ℕ) → length (laws.block s1.disk n) ≡ length (laws.block s.disk n)
    pub each : (p : ℕ) → p < end → file_byte store laws sb s1 i p ≡ written_byte s i offset buf p
    pub others :
        (n : ℕ)
        → ((k : ℕ) → k * bsize < end → n ≢ get_or (inode_at s i).d.addrs k 0)
        → laws.block s1.disk n ≡ laws.block s.disk n

  -- a round that writes `part` to the block of `offset`
  round-IsWritten :
      (s : Files S) (d : S) (i offset end : ℕ) (part : List ℕ)
      → IsMapped store laws sb s i end
      → 0 < length part
      → offset % bsize + length part ≤ bsize
      → offset + length part ≤ end
      → laws.Idle d
      → ((n : ℕ)
          → laws.block d n ≡ (
              if n == get_or (inode_at s i).d.addrs (offset / bsize) 0
              then overwrite
                  (laws.block s.disk (get_or (inode_at s i).d.addrs (offset / bsize) 0))
                  (offset % bsize)
                  part
              else laws.block s.disk n))
      → IsWritten s (record s { disk = d }) i offset end part
  round-IsWritten s d i offset end part m some_left fits within idle changed =
      let addr : ℕ → ℕ = λ k. get_or (inode_at s i).d.addrs k 0 in
      let bno = addr (offset / bsize) in
      let old = laws.block s.disk bno in
      let o = offset % bsize in
      let full : length old ≡ bsize = m.whole (offset / bsize) (omega arith) in
      record {
        idle = idle;
        same_cache = refl;
        sizes = λ n. ap length (changed n) ∙ elim (Bool-cases (n == bno)) [
          | inl here ↦
              let q : n ≡ bno = (==_iff n bno).0 here in
              ap length (if-on (overwrite old o part) (laws.block s.disk n) here)
              ∙ length-overwrite old o part
              ∙ ap (λ x. length (laws.block s.disk x)) (sym q)
          | inr other ↦ ap length (if-off (overwrite old o part) (laws.block s.disk n) other)
        ];
        each = λ p h.
            ap (λ bs. get_or bs (p % bsize) 0) (changed (addr (p / bsize)))
            ∙ elim (Bool-cases (addr (p / bsize) == bno)) [
              | inl here ↦
                  let q : addr (p / bsize) ≡ bno = (==_iff (addr (p / bsize)) bno).0 here in
                  let blk : p / bsize ≡ offset / bsize =
                    m.apart (p / bsize) (offset / bsize) (omega arith) (omega arith) q in
                  let test : (leb o (p % bsize) && ltb (p % bsize) (o + length part))
                      ≡ (leb offset p && ltb p (offset + length part)) =
                    ap₂ (λ x y. x && y) (leb_shift o (p % bsize) offset p (omega arith))
                      (ltb_shift (p % bsize) (o + length part) p (offset + length part)
                        (omega arith)) in
                  let place : p % bsize - o ≡ p - offset = omega arith in
                  ap (λ bs. get_or bs (p % bsize) 0)
                    (if-on (overwrite old o part) (laws.block s.disk (addr (p / bsize))) here)
                  ∙ get_or-overwrite old o part (p % bsize) 0 (omega (arith, full))
                  ∙ ap₂ (λ t (x : ℕ). if t then x else get_or old (p % bsize) 0) test
                      (ap (λ x. get_or part x 0) place)
                  ∙ ap
                      (λ x.
                        if leb offset p && ltb p (offset + length part)
                        then get_or part (p - offset) 0
                        else get_or (laws.block s.disk x) (p % bsize) 0)
                      (sym q)
              | inr other ↦
                  let blk : p / bsize ≢ offset / bsize =
                    λ e. apart_test (addr (p / bsize)) bno other (ap addr e) in
                  let outside : (leb offset p && ltb p (offset + length part)) ≡ false =
                    in_block offset p (length part) fits blk in
                  ap (λ bs. get_or bs (p % bsize) 0)
                    (if-off (overwrite old o part) (laws.block s.disk (addr (p / bsize))) other)
                  ∙ sym
                      (if-off (get_or part (p - offset) 0) (file_byte store laws sb s i p) outside)
            ];
        others = λ n ne.
            let apart : (n == bno) ≡ false = ground (arith, ne (offset / bsize) (omega arith)) in
            changed n ∙ if-off (overwrite old o part) (laws.block s.disk n) apart;
      }

  nothing-IsWritten :
      (s : Files S) (i offset end : ℕ) (buf : List ℕ)
      → length buf ≡ 0
      → laws.Idle s.disk
      → IsWritten s s i offset end buf
  nothing-IsWritten s i offset end buf z idle = record {
    idle = idle;
    same_cache = refl;
    sizes = λ n. refl;
    each = λ p h.
        let outside : (leb offset p && ltb p (offset + length buf)) ≡ false = ground (arith, z) in
        sym (if-off (get_or buf (p - offset) 0) (file_byte store laws sb s i p) outside);
    others = λ n ne. refl;
  }

  pub write_bytes-IsMapped :
      (k : ℕ) (s : Files S) (i offset end : ℕ) (buf : List ℕ)
      → length buf ≤ k
      → offset + length buf ≤ end
      → IsMapped store laws sb s i end
      → laws.Idle s.disk
      → (s1 : Files S) × (write_bytes store sb k s i offset buf ≡ returns (offset + length buf, s1))
        × IsWritten s s1 i offset end buf
  unfolding write_bytes
  write_bytes-IsMapped zero s i offset end buf le h m idle =
      let z : (length buf == 0) ≡ true = ground arith in
      let here : offset ≡ offset + length buf = omega arith in
      (
        s,
        if-on _ _ z ∙ ap (λ x. returns (x, s)) here,
        nothing-IsWritten s i offset end buf (omega arith) idle,
      )
  write_bytes-IsMapped (suc k) s i offset end buf le h m idle =
      elim (Bool-cases (length buf == 0)) [
        | inl z ↦
            let none_left : length buf ≡ 0 = ground arith in
            let here : offset ≡ offset + length buf = omega arith in
            (
              s,
              if-on _ _ z ∙ ap (λ x. returns (x, s)) here,
              nothing-IsWritten s i offset end buf none_left idle,
            )
        | inr z ↦
            let some_left : 0 < length buf = ground arith in
            let n = span offset (length buf) in
            let part = take n buf in
            let size : length part ≡ n = omega (arith, length-take n buf) in
            let left : length (drop n buf) ≡ length buf - n = length-drop n buf in
            let addr = get_or (inode_at s i).d.addrs (offset / bsize) 0 in
            let (b, d1, eq, c, idle1, keep1, w) =
              visit store laws s.disk (inode_at s i).dev addr false idle in
            let bytes = overwrite (store.cache d1 b) (offset % bsize) part in
            let (d2, eq2, idle2, keep2) = w bytes in
            let d = store.bcache_release d2 b in
            let s1 : Files S = record s { disk = d } in
            let first =
              round-IsWritten s d i offset end part m (omega (arith, size)) (omega (arith, size))
                (omega (arith, size)) idle2
                (λ x.
                  keep2 x
                  ∙ ap
                      (λ old.
                        if x == addr
                        then overwrite old (offset % bsize) part
                        else laws.block s.disk x)
                      c) in
            let m1 = IsMapped-disk store laws sb s d i end first.sizes m in
            let near : (offset + n) % 2 ^ 32 ≡ offset + n = omega (arith, m.direct) in
            let stop : offset + n + length (drop n buf) ≡ offset + length buf =
              omega (arith, left) in
            let (s2, eq3, r) =
              write_bytes-IsMapped k s1 i (offset + n) end (drop n buf) (omega (arith, left))
                (omega (arith, left)) m1 idle2 in
            (
              s2,
              write_round k s s2 d1 d2 i offset addr b (offset + length buf) buf z
                  (bmap-IsMapped store laws sb s i end offset m (omega arith)) eq eq2
                  (ap (λ x. write_bytes store sb k s1 i x (drop n buf)) near
                    ∙ eq3
                    ∙ ap (λ x. returns (x, s2)) stop),
              record {
                idle = r.idle;
                same_cache = r.same_cache;
                sizes = λ x. r.sizes x ∙ first.sizes x;
                each = λ p hp.
                    r.each p hp
                    ∙ ap
                        (λ y.
                          if leb (offset + n) p && ltb p (offset + n + length (drop n buf))
                          then get_or (drop n buf) (p - (offset + n)) 0
                          else y)
                        (first.each p hp)
                    ∙ join_writes buf n offset p (file_byte store laws sb s i p) (omega arith);
                others = λ x ne. r.others x ne ∙ first.others x ne;
              },
            )
      ]
