-- ===== src/Disk/Content/RoundTrip.antt =====
-- kernel/fs/inode.c: what inode_write stores, inode_read gives back.
use melon_os.Common.{
  same_entries, ℕ, ◌+◌, ◌-◌, ◌*◌, ◌^◌, ◌<◌, ◌≤◌, ◌≡◌, ◌≢◌, refl, sym, ap, ◌∙◌, max, true, false,
  ◌&&◌, ◌||◌, ltb, leb, ◌==◌, if◌then◌else◌, if-on, Option, List, get_or, length, arith,
}
use melon_os.Common.Int.{ℤ, pos}
use melon_os.Fs.Types.{FileType, Inode}
use melon_os.Disk.Types.{returns, ◌>>=◌, SuperBlock, bsize}
use melon_os.Disk.Store.{BlockStore, StoreLaws}
use melon_os.Disk.Dinode.{maxfile}
use melon_os.Disk.Inode.{Files, inode_at, inode_block}
use melon_os.Disk.Content.{
  load_first, read_file, write_file, inode_read, inode_write, read_by_type, write_by_type,
}
use melon_os.Disk.Content.Direct.{file_byte, IsMapped, IsRead, read_bytes-IsMapped}
use melon_os.Disk.Content.Written.{write_bytes-IsMapped}
use melon_os.Disk.Content.Stored.{IsStored, note_size-IsStored}

at_offset :
    (offset j : ℕ) (buf : List ℕ) (x : ℕ)
    → j < length buf
    → (if leb offset (offset + j) && ltb (offset + j) (offset + length buf)
        then get_or buf (offset + j - offset) 0
        else x)
      ≡ get_or buf j 0
at_offset offset j buf x h =
    let inside : (leb offset (offset + j) && ltb (offset + j) (offset + length buf)) ≡ true =
      ground arith in
    let place : offset + j - offset ≡ j = omega arith in
    if-on _ _ inside ∙ ap (λ k. get_or buf k 0) place

module _ {S : Type 0} (store : BlockStore S) (laws : StoreLaws store) (sb : SuperBlock) where
  -- The inode is in memory and is a file, the write starts in it or at its end, and both lie below
  -- `end`, up to where the inode names blocks of its own.
  pub record CanWrite (s : Files S) (i offset end : ℕ) (buf : List ℕ) : Type 0 where
    pub idle : laws.Idle s.disk
    pub cached : i < length s.icache
    pub loaded : (inode_at s i).read ≡ true
    pub is_file : (inode_at s i).d.type ≡ FileType.file
    pub starts : offset ≤ (inode_at s i).d.size
    pub ends : offset + length buf ≤ end
    pub mapped : IsMapped store laws sb s i end
    pub home :
        (k : ℕ)
        → k * bsize < end
        → get_or (inode_at s i).d.addrs k 0 ≢ inode_block store sb (inode_at s i).inum

  write_file-IsStored :
      (s : Files S) (i offset end : ℕ) (buf : List ℕ)
      → CanWrite s i offset end buf
      → (s1 : Files S) × (write_file store sb s i buf offset ≡ returns (pos (length buf), s1))
        × IsStored store laws sb s s1 i offset end buf
  unfolding write_file
  write_file-IsStored s i offset end buf h =
      let (s1, eq, w) =
        write_bytes-IsMapped store laws sb (length buf) s i offset end buf (omega arith) h.ends
          h.mapped h.idle in
      let (s2, eq2, r) = note_size-IsStored store laws sb s s1 i offset end buf h.cached h.home w in
      let fits : (ltb (inode_at s i).d.size offset
            || ltb (2 ^ 32 - 1 - offset) (length buf)
            || ltb maxfile (offset + length buf))
          ≡ false =
        ground (arith, h.starts, h.ends, h.mapped.direct) in
      (s2, rw fits (rw eq (rw eq2 refl)), r)

  IsStored-IsMapped :
      (s s1 : Files S) (i offset end : ℕ) (buf : List ℕ)
      → IsMapped store laws sb s i end
      → IsStored store laws sb s s1 i offset end buf
      → IsMapped store laws sb s1 i end
  IsStored-IsMapped s s1 i offset end buf m w = record {
    direct = m.direct;
    given = λ k h. ap (λ as_. get_or as_ k 0 == 0) w.addrs ∙ m.given k h;
    whole = λ k h.
        ap (λ as_. length (laws.block s1.disk (get_or as_ k 0))) w.addrs
        ∙ w.sizes k h
        ∙ m.whole k h;
    apart = λ j k hj hk e.
        m.apart j k hj hk
          (ap (λ as_. get_or as_ j 0) (sym w.addrs) ∙ e ∙ ap (λ as_. get_or as_ k 0) w.addrs);
  }

  read_file-IsRead :
      (s : Files S) (i offset sz end : ℕ)
      → laws.Idle s.disk
      → offset + sz ≤ (inode_at s i).d.size
      → offset + sz ≤ end
      → IsMapped store laws sb s i end
      → (bytes : List ℕ) × (s1 : Files S) × (read_file store sb s i offset sz
          ≡ returns (pos sz, bytes, s1))
        × IsRead store laws sb s s1 i offset sz bytes
  unfolding read_file
  read_file-IsRead s i offset sz end idle inside low m =
      let (bytes, s1, eq, r) =
        read_bytes-IsMapped store laws sb sz s i offset sz end (omega arith) low m idle in
      let whole : ltb (inode_at s i).d.size (offset + sz) ≡ false = ground (arith, inside) in
      let fits : (ltb (inode_at s i).d.size offset || ltb (2 ^ 32 - 1 - offset) sz) ≡ false =
        ground (arith, inside, low, m.direct) in
      (bytes, s1, rw (fits, whole) (rw eq refl), r)

  inode_read-file :
      (dev_read : ℕ → Option (Inode → ℕ → ℤ × List ℕ)) (s : Files S) (i offset sz : ℕ)
      → (inode_at s i).read ≡ true
      → (inode_at s i).d.type ≡ FileType.file
      → inode_read store sb dev_read s i offset sz ≡ read_file store sb s i offset sz
  unfolding inode_read load_first read_by_type
  inode_read-file dev_read s i offset sz loaded is_file =
      ap (λ c. c >>= λ s1. read_by_type store sb dev_read (inode_at s1 i).d.type s1 i offset sz)
        (if-on _ _ loaded)
      ∙ ap (λ t. read_by_type store sb dev_read t s i offset sz) is_file

  inode_write-file :
      (dev_write : ℕ → Option (Inode → List ℕ → ℤ)) (s : Files S) (i offset : ℕ) (buf : List ℕ)
      → (inode_at s i).read ≡ true
      → (inode_at s i).d.type ≡ FileType.file
      → inode_write store sb dev_write s i buf offset ≡ write_file store sb s i buf offset
  unfolding inode_write load_first write_by_type
  inode_write-file dev_write s i offset buf loaded is_file =
      ap (λ c. c >>= λ s1. write_by_type store sb dev_write (inode_at s1 i).d.type s1 i buf offset)
        (if-on _ _ loaded)
      ∙ ap (λ t. write_by_type store sb dev_write t s i buf offset) is_file

  -- In a loaded file whose blocks below `end` the inode names itself, a write that starts in the file
  -- or at its end, and that ends below `end`, returns its length; the file grows to the end of the
  -- write if it was shorter; reading there gives the bytes written; and every byte below `end` is
  -- then the byte written to its place, or what it was if nothing was.
  pub inode_read-inode_write :
      (s : Files S) (i offset end : ℕ) (buf : List ℕ)
      (dev_read : ℕ → Option (Inode → ℕ → ℤ × List ℕ)) (dev_write : ℕ → Option (Inode → List ℕ → ℤ))
      → CanWrite s i offset end buf
      → (s1 : Files S) × (s2 : Files S) × (inode_write store sb dev_write s i buf offset
          ≡ returns (pos (length buf), s1))
        × (inode_read store sb dev_read s1 i offset (length buf)
            ≡ returns (pos (length buf), buf, s2))
        × ((inode_at s1 i).d.size ≡ max (inode_at s i).d.size (offset + length buf))
        × ((p : ℕ)
            → p < end
            → file_byte store laws sb s1 i p ≡ (
                if leb offset p && ltb p (offset + length buf)
                then get_or buf (p - offset) 0
                else file_byte store laws sb s i p))
  inode_read-inode_write s i offset end buf dev_read dev_write h =
      let (s1, eq, w) = write_file-IsStored s i offset end buf h in
      let m1 = IsStored-IsMapped s s1 i offset end buf h.mapped w in
      let (bytes, s2, eq2, r) =
        read_file-IsRead s1 i offset (length buf) end w.idle (omega (arith, w.size)) h.ends m1 in
      let got : bytes ≡ buf = same_entries bytes buf 0 r.all_read (λ j lt.
        r.each j lt
        ∙ w.each (offset + j) (omega (arith, h.ends))
        ∙ at_offset offset j buf (file_byte store laws sb s i (offset + j)) lt) in
      (
        s1,
        s2,
        inode_write-file dev_write s i offset buf h.loaded h.is_file ∙ eq,
        inode_read-file dev_read s1 i offset (length buf) (w.read ∙ h.loaded) (w.type ∙ h.is_file)
            ∙ eq2
            ∙ ap (λ x. returns (pos (length buf), x, s2)) got,
        w.size,
        w.each,
      )
