-- ===== src/Disk/Content/Stored.antt =====
-- kernel/fs/inode.c: a write notes the size of the file and stores the inode.
use melon_os.Common.{
  ℕ, ◌+◌, ◌*◌, ◌/◌, ◌%◌, ◌<◌, ◌≡◌, ◌≢◌, refl, sym, ap, ◌∙◌, max, true, false, ltb, ◌==◌, ==_refl,
  if-on, if-off, List, get_or, length, get_or-set_self, arith, Bool-cases, inl, inr,
}
use melon_os.Fs.Types.{Inode}
use melon_os.Fs.File.{zero_inode}
use melon_os.Disk.Types.{returns, SuperBlock, bsize}
use melon_os.Disk.Store.{BlockStore, StoreLaws}
use melon_os.Disk.Dinode.{overwrite, encode, inode_per_block, dinode_size}
use melon_os.Disk.Inode.{Files, inode_at, put_size, inode_block, dinode_write, inode_flush}
use melon_os.Disk.Content.{note_size}
use melon_os.Disk.Content.Direct.{file_byte}
use melon_os.Disk.Content.Written.{written_byte, IsWritten}

module _ {S : Type 0} (store : BlockStore S) (laws : StoreLaws store) (sb : SuperBlock) where
  flush_lem :
      (s : Files S) (i : ℕ)
      → laws.Idle s.disk
      → (d : S) × (inode_flush store sb s i ≡ returns (record s { disk = d }))
        × laws.Idle d
        × ((n : ℕ)
            → n ≢ inode_block store sb (inode_at s i).inum
            → laws.block d n ≡ laws.block s.disk n)
  unfolding inode_flush dinode_write
  flush_lem s i idle =
      let ino = inode_at s i in
      let home = inode_block store sb ino.inum in
      let (b, d1, eq, held, c, keep) = laws.read s.disk ino.dev home false idle in
      let here : (store.blockno d1 b == home) ≡ true =
        rw (laws.blockno_held d1 b home held) (==_refl home) in
      let bytes =
        overwrite (store.cache d1 b) (ino.inum % inode_per_block * dinode_size) (encode ino.d) in
      let (d2, eq2, held2, c2, keep2) = laws.write d1 b home bytes false held in
      (
        store.bcache_release d2 b,
        rw eq (rw here (rw eq2 refl)),
        laws.release_idle d2 b home held2,
        λ n ne.
            let other : (n == home) ≡ false = ground arith in
            laws.release_keeps d2 b home n held2 ∙ keep2 n ∙ if-off _ _ other ∙ keep n,
      )

  -- The file behind a write of `buf` at `offset`, which lies below `end`.
  pub record IsStored (s s1 : Files S) (i offset end : ℕ) (buf : List ℕ) : Type 0 where
    pub idle : laws.Idle s1.disk
    pub read : (inode_at s1 i).read ≡ (inode_at s i).read
    pub type : (inode_at s1 i).d.type ≡ (inode_at s i).d.type
    pub addrs : (inode_at s1 i).d.addrs ≡ (inode_at s i).d.addrs
    pub size : (inode_at s1 i).d.size ≡ max (inode_at s i).d.size (offset + length buf)
    pub sizes :
        (k : ℕ)
        → k * bsize < end
        → length (laws.block s1.disk (get_or (inode_at s i).d.addrs k 0))
          ≡ length (laws.block s.disk (get_or (inode_at s i).d.addrs k 0))
    pub each :
        (p : ℕ)
        → p < end
        → file_byte store laws sb s1 i p ≡ written_byte store laws sb s i offset buf p

  pub note_size-IsStored :
      (s s1 : Files S) (i offset end : ℕ) (buf : List ℕ)
      → i < length s.icache
      → ((k : ℕ)
          → k * bsize < end
          → get_or (inode_at s i).d.addrs k 0 ≢ inode_block store sb (inode_at s i).inum)
      → IsWritten store laws sb s s1 i offset end buf
      → (s2 : Files S) × (note_size store sb s1 i (offset + length buf) ≡ returns s2)
        × IsStored s s2 i offset end buf
  unfolding note_size
  note_size-IsStored s s1 i offset end buf h home w =
      let same : inode_at s1 i ≡ inode_at s i = ap (λ c. get_or c i zero_inode) w.same_cache in
      let stop = offset + length buf in
      elim (Bool-cases (ltb (inode_at s1 i).d.size stop)) [
        | inr fits ↦ (
          s1,
          if-off _ _ fits,
          record {
            idle = w.idle;
            read = ap (λ (x : Inode). x.read) same;
            type = ap (λ (x : Inode). x.d.type) same;
            addrs = ap (λ (x : Inode). x.d.addrs) same;
            size = (let e = ap (λ (x : Inode). x.d.size) same in ground (arith, e));
            sizes = λ k lt. w.sizes _;
            each = w.each;
          },
        )
        | inl grows ↦
            let ino = inode_at s1 i in
            let x : Inode = record ino { d = record (ino.d) { size = stop } } in
            let t = put_size s1 i stop in
            let within : i < length s1.icache = omega (arith, ap length w.same_cache, h) in
            let at_x : inode_at t i ≡ x = get_or-set_self s1.icache i x zero_inode within in
            let (d, eq, idle, keep) = flush_lem t i w.idle in
            let inum_eq : (inode_at t i).inum ≡ (inode_at s i).inum =
              ap (λ (y : Inode). y.inum) at_x ∙ ap (λ (y : Inode). y.inum) same in
            let addrs_eq : (inode_at t i).d.addrs ≡ (inode_at s1 i).d.addrs =
              ap (λ (y : Inode). y.d.addrs) at_x in
            let s_addrs : (inode_at s1 i).d.addrs ≡ (inode_at s i).d.addrs =
              ap (λ (y : Inode). y.d.addrs) same in
            let kept : (k : ℕ)
                → k * bsize < end
                → laws.block d (get_or (inode_at s i).d.addrs k 0)
                  ≡ laws.block s1.disk (get_or (inode_at s i).d.addrs k 0) =
              λ k lt.
                keep (get_or (inode_at s i).d.addrs k 0)
                  (λ q. home k lt (q ∙ ap (inode_block store sb) inum_eq)) in
            (
              record t { disk = d },
              if-on _ _ grows ∙ eq,
              record {
                idle = idle;
                read = ap (λ (y : Inode). y.read) at_x ∙ ap (λ (y : Inode). y.read) same;
                type = ap (λ (y : Inode). y.d.type) at_x ∙ ap (λ (y : Inode). y.d.type) same;
                addrs = addrs_eq ∙ s_addrs;
                size =
                    ap (λ (y : Inode). y.d.size) at_x
                    ∙ (let e = ap (λ (y : Inode). y.d.size) same in ground (arith, e));
                sizes = λ k lt. ap length (kept k lt) ∙ w.sizes (get_or (inode_at s i).d.addrs k 0);
                each = λ p lt.
                    ap (λ as_. get_or (laws.block d (get_or as_ (p / bsize) 0)) (p % bsize) 0)
                      (addrs_eq ∙ s_addrs)
                    ∙ ap (λ bs. get_or bs (p % bsize) 0) (kept (p / bsize) (omega arith))
                    ∙ ap
                        (λ as_.
                          get_or (laws.block s1.disk (get_or as_ (p / bsize) 0)) (p % bsize) 0)
                        (sym s_addrs)
                    ∙ w.each p lt;
              },
            )
      ]
