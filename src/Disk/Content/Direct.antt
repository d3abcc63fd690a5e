-- ===== src/Disk/Content/Direct.antt =====
-- kernel/fs/inode.c: files whose blocks the inode names itself, and reading them.
use melon_os.Common.{
  ℕ, zero, suc, ◌+◌, ◌-◌, ◌*◌, ◌/◌, ◌%◌, ◌^◌, ◌<◌, ◌≤◌, ◌≡◌, refl, sym, ap, ap₂, ◌∙◌, min, true,
  false, ltb, ◌==◌, if-on, if-off, List, [], ◌++◌, get_or, take, drop, length, length-take,
  length-drop, length-append, get_or-drop, arith, Bool-cases, inl, inr,
}
use melon_os.Disk.Types.{returns, SuperBlock, bsize}
use melon_os.Disk.Store.{BlockStore, StoreLaws, visit}
use melon_os.Disk.Dinode.{ndirect}
use melon_os.Disk.Inode.{Files, inode_at, bmap0, inode_bmap}
use melon_os.Disk.Content.{read_bytes}
use melon_os.Disk.Content.Bytes.{get_or-take, get_or-append}

-- the bytes that a round at `offset` covers
abbrev pub span : ℕ → ℕ → ℕ
span offset left = min left (bsize - offset % bsize)

module _ {S : Type 0} (store : BlockStore S) (laws : StoreLaws store) (sb : SuperBlock) where
  -- The byte of the file at `p`, when its block is named by the inode.
  abbrev pub file_byte : Files S → ℕ → ℕ → ℕ
  file_byte s i p =
      get_or (laws.block s.disk (get_or (inode_at s i).d.addrs (p / bsize) 0)) (p % bsize) 0

  -- The blocks of the bytes below `end` are named by the inode, are whole, and are different.
  pub record IsMapped (s : Files S) (i end : ℕ) : Type 0 where
    pub direct : end ≤ ndirect * bsize
    pub given : (k : ℕ) → k * bsize < end → (get_or (inode_at s i).d.addrs k 0 == 0) ≡ false
    pub whole :
        (k : ℕ)
        → k * bsize < end
        → length (laws.block s.disk (get_or (inode_at s i).d.addrs k 0)) ≡ bsize
    pub apart :
        (j k : ℕ)
        → j * bsize < end
        → k * bsize < end
        → get_or (inode_at s i).d.addrs j 0 ≡ get_or (inode_at s i).d.addrs k 0
        → j ≡ k

  pub bmap-IsMapped :
      (s : Files S) (i end p : ℕ)
      → IsMapped s i end
      → p < end
      → inode_bmap store sb s i (p / bsize)
        ≡ returns (get_or (inode_at s i).d.addrs (p / bsize) 0, s)
  unfolding inode_bmap bmap0
  bmap-IsMapped s i end p m h =
      let low : ltb (p / bsize) ndirect ≡ true = ground (arith, m.direct) in
      rw (low, m.given (p / bsize) (omega arith)) refl

  pub IsMapped-disk :
      (s : Files S) (d : S) (i end : ℕ)
      → ((n : ℕ) → length (laws.block d n) ≡ length (laws.block s.disk n))
      → IsMapped s i end
      → IsMapped (record s { disk = d }) i end
  IsMapped-disk s d i end same m = record {
    direct = m.direct;
    given = m.given;
    whole = λ k h. same (get_or (inode_at s i).d.addrs k 0) ∙ m.whole k h;
    apart = m.apart;
  }

  read_round :
      (k : ℕ) (s s2 : Files S) (d1 : S) (i offset left blockno b : ℕ) (rest : List ℕ)
      → (left == 0) ≡ false
      → inode_bmap store sb s i (offset / bsize) ≡ returns (blockno, s)
      → store.bcache_read s.disk (inode_at s i).dev blockno false ≡ returns (b, d1)
      → read_bytes store sb k
          (record s { disk = store.bcache_release d1 b })
          i
          ((offset + span offset left) % 2 ^ 32)
          (left - span offset left)
        ≡ returns (rest, s2)
      → read_bytes store sb (suc k) s i offset left
        ≡ returns (take (span offset left) (drop (offset % bsize) (store.cache d1 b)) ++ rest, s2)
  unfolding read_bytes
  read_round k s s2 d1 i offset left blockno b rest some_left map_eq read_eq rest_eq =
      rw some_left (rw map_eq (rw read_eq (rw rest_eq refl)))

  -- What is read from so many bytes on.
  pub record IsRead (s s1 : Files S) (i offset left : ℕ) (bytes : List ℕ) : Type 0 where
    pub all_read : length bytes ≡ left
    pub each : (j : ℕ) → j < left → get_or bytes j 0 ≡ file_byte s i (offset + j)
    pub idle : laws.Idle s1.disk
    pub same_cache : s1.icache ≡ s.icache
    pub kept : (n : ℕ) → laws.block s1.disk n ≡ laws.block s.disk n

  join_reads :
      (s : Files S) (i offset left end : ℕ) (block : List ℕ) (rest : List ℕ)
      → IsMapped s i end
      → offset + left ≤ end
      → 0 < left
      → block ≡ laws.block s.disk (get_or (inode_at s i).d.addrs (offset / bsize) 0)
      → length rest ≡ left - span offset left
      → ((j : ℕ)
          → j < left - span offset left
          → get_or rest j 0 ≡ file_byte s i (offset + span offset left + j))
      → (length (take (span offset left) (drop (offset % bsize) block) ++ rest) ≡ left)
        × ((j : ℕ)
            → j < left
            → get_or (take (span offset left) (drop (offset % bsize) block) ++ rest) j 0
              ≡ file_byte s i (offset + j))
  join_reads s i offset left end block rest m h some_left c len each =
      let o = offset % bsize in
      let n = span offset left in
      let full : length block ≡ bsize = ap length c ∙ m.whole (offset / bsize) (omega arith) in
      let size : length (take n (drop o block)) ≡ n =
        omega (arith, length-take n (drop o block), length-drop o block, full) in
      (
        omega (arith, length-append (take n (drop o block)) rest, size, len),
        λ j lt.
            get_or-append (take n (drop o block)) rest j 0
            ∙ elim (Bool-cases (ltb j (length (take n (drop o block))))) [
              | inl first ↦
                  let in_n : j < n = ground (arith, size) in
                  let blk : (offset + j) / bsize ≡ offset / bsize = omega arith in
                  let byte : (offset + j) % bsize ≡ o + j = omega arith in
                  if-on _ _ first
                  ∙ get_or-take n (drop o block) j 0 in_n
                  ∙ get_or-drop o block j 0
                  ∙ ap (λ bs. get_or bs (o + j) 0) c
                  ∙ ap₂ (λ k x. get_or (laws.block s.disk (get_or (inode_at s i).d.addrs k 0)) x 0)
                      (sym blk) (sym byte)
              | inr later ↦
                  let behind : n ≤ j = ground (arith, size) in
                  let at : offset + n + (j - n) ≡ offset + j = omega arith in
                  if-off _ _ later
                  ∙ ap (λ x. get_or rest (j - x) 0) size
                  ∙ each (j - n) (omega arith)
                  ∙ ap (file_byte s i) at
            ],
      )

  pub read_bytes-IsMapped :
      (k : ℕ) (s : Files S) (i offset left end : ℕ)
      → left ≤ k
      → offset + left ≤ end
      → IsMapped s i end
      → laws.Idle s.disk
      → (bytes : List ℕ) × (s1 : Files S) × (read_bytes store sb k s i offset left
          ≡ returns (bytes, s1))
        × IsRead s s1 i offset left bytes
  unfolding read_bytes
  read_bytes-IsMapped zero s i offset left end le h m idle =
      let z : (left == 0) ≡ true = ground arith in
      (
        [],
        s,
        rw z refl,
        record {
          all_read = omega arith;
          each = λ j lt. absurd (omega arith);
          idle = idle;
          same_cache = refl;
          kept = λ n. refl;
        },
      )
  read_bytes-IsMapped (suc k) s i offset left end le h m idle = elim (Bool-cases (left == 0)) [
    | inl z ↦
        let none_left : left ≡ 0 = ground arith in
        (
          [],
          s,
          rw z refl,
          record {
            all_read = omega arith;
            each = λ j lt. absurd (omega arith);
            idle = idle;
            same_cache = refl;
            kept = λ n. refl;
          },
        )
    | inr z ↦
        let some_left : 0 < left = ground arith in
        let n = span offset left in
        let addr = get_or (inode_at s i).d.addrs (offset / bsize) 0 in
        let (b, d1, eq, c, idle1, keep1, w) =
          visit store laws s.disk (inode_at s i).dev addr false idle in
        let d = store.bcache_release d1 b in
        let s1 : Files S = record s { disk = d } in
        let m1 = IsMapped-disk s d i end (λ x. ap length (keep1 x)) m in
        let near : (offset + n) % 2 ^ 32 ≡ offset + n = omega (arith, m.direct) in
        let (rest, s2, eq2, r) =
          read_bytes-IsMapped k s1 i (offset + n) (left - n) end (omega arith) (omega arith) m1
            idle1 in
        let (len, each) =
          join_reads s i offset left end (store.cache d1 b) rest m h some_left c r.all_read (λ j lt.
            r.each j lt
            ∙ ap (λ bs. get_or bs ((offset + n + j) % bsize) 0)
                (keep1 (get_or (inode_at s i).d.addrs ((offset + n + j) / bsize) 0))) in
        (
          take n (drop (offset % bsize) (store.cache d1 b)) ++ rest,
          s2,
          read_round k s s2 d1 i offset left addr b rest z
              (bmap-IsMapped s i end offset m (omega arith)) eq
              (ap (λ x. read_bytes store sb k s1 i x (left - n)) near ∙ eq2),
          record {
            all_read = len;
            each = each;
            idle = r.idle;
            same_cache = r.same_cache;
            kept = λ x. r.kept x ∙ keep1 x;
          },
        )
  ]
