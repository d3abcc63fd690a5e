-- ===== src/Disk/Tests.antt =====
-- Runs of the code in kernel/fs on small disks.
use melon_os.Common.{
  ℕ, zero, suc, ◌+◌, ◌-◌, ◌<◌, ◌≤◌, ◌≡◌, ◌≢◌, ◌⊎◌, ◌++◌, refl, max, Bool, true, false, ◌&&◌, ltb,
  leb, ◌==◌, if◌then◌else◌, none, some, List, [], ◌∷◌, replicate, length, get_or, arith,
}
use melon_os.Common.Int.{pos}
use melon_os.Fs.Types.{FileType}
use melon_os.Disk.Types.{
  returns, panics, Ide, Disk, SuperBlock, node_at, put_node, zero_node, bsize,
}
use melon_os.Disk.Sync.{blk2sec, synced, dq_enqueue}
use melon_os.Disk.Sync.Requests.{IdeLaws}
use melon_os.Disk.Sync.Served.{Interrupting, interrupts, enqueue-served}
use melon_os.Disk.Cache.{bcache_read, bcache_write, bcache_release}
use melon_os.Disk.Cache.Solo.{IsIdle}
use melon_os.Disk.Cache.Held.{bcache_store}
use melon_os.Disk.Cache.Visits.{stored, visit_lem, bcache_laws}
use melon_os.Disk.Block.{freemap_check, freemap_set, block_alloc}
use melon_os.Disk.Block.Freemap.{InMap, is_used, freemap_check-set}
use melon_os.Disk.Block.Alloc.{block_alloc_lem}
use melon_os.Disk.Inode.{Files, inode_at}
use melon_os.Disk.Content.{inode_read, inode_write}
use melon_os.Disk.Content.Direct.{file_byte}
use melon_os.Disk.Content.RoundTrip.{CanWrite, inode_read-inode_write}
use melon_os.Disk.Types.{Call, spins}
use melon_os.Disk.Block.{block_super}
use melon_os.Disk.Sync.{sync_now, disk_cmd_request, read_block, disk_sync}
use melon_os.Disk.Cache.{
  bcache_init, link_loop, bcache_acquire, bcachce_lookup, ring_find, move_front, unlink,
  point_front, become_head,
}

-- A drive: its sectors, and the one that was asked for.
abbrev Drive : Type 0
Drive = (ℕ → List ℕ) × ℕ

abbrev drive_ide : Ide Drive
drive_ide = record {
  ide_write_request = λ d bytes n. (λ m. if m == n then bytes else d.0 m, d.1);
  ide_read_request = λ d n. (d.0, n);
  ide_read = λ d. d.0 d.1;
}

abbrev drive_laws : IdeLaws drive_ide
drive_laws = record {
  sector = λ d. d.0;
  written = λ d bytes n m. refl;
  asked = λ d n m. refl;
  answered = λ d n. refl;
}

abbrev blank : Drive
blank = (λ n. replicate bsize n, 0)

-- a cache whose ring is one node
abbrev idle_cache : Disk Drive
idle_cache = record { buffer = zero_node ∷ []; head = 0; queue = none; drive = blank }

abbrev idle_cache-IsIdle : IsIdle idle_cache
idle_cache-IsIdle = record {
  within = omega arith;
  alone = refl;
  alone_back = refl;
  free = refl;
  clean = refl;
  stale = refl;
  no_queue = refl;
}

visit_lem_example :
    (s1 : Disk Drive) × (bcache_read drive_ide idle_cache 1 7 false ≡ returns (idle_cache.head, s1))
    × ((node_at s1 idle_cache.head).cache ≡ stored drive_ide drive_laws idle_cache 7)
    × ((m : ℕ)
        → stored drive_ide drive_laws (bcache_release s1 idle_cache.head) m
          ≡ stored drive_ide drive_laws idle_cache m)
    × IsIdle (bcache_release s1 idle_cache.head)
    × ((dev2 m : ℕ) (poll2 : Bool) → m ≢ 7 → bcache_read drive_ide s1 dev2 m poll2 ≡ panics)
    × ((bytes : List ℕ) (poll2 : Bool)
        → (s2 : Disk Drive) × (bcache_write drive_ide
              (put_node s1 idle_cache.head (record (node_at s1 idle_cache.head) { cache = bytes }))
              idle_cache.head
              poll2
            ≡ returns s2)
          × IsIdle (bcache_release s2 idle_cache.head)
          × ((m : ℕ)
              → stored drive_ide drive_laws (bcache_release s2 idle_cache.head) m
                ≡ (if m == 7 then bytes else stored drive_ide drive_laws idle_cache m)))
visit_lem_example = visit_lem drive_ide drive_laws idle_cache 1 7 false idle_cache-IsIdle

-- Two nodes of three are queued.
abbrev busy_cache : Disk Drive
busy_cache = record {
  buffer =
      record zero_node { blockno = 4 }
      ∷ record zero_node { blockno = 5; qnext = some 0 }
      ∷ record zero_node { blockno = 6; dirty = true }
      ∷ [];
  head = 0;
  queue = some 1;
  drive = blank;
}

-- The drive with a flag that says whether it has an interrupt.
abbrev LoudDrive : Type 0
LoudDrive = Drive × Bool

abbrev loud_ide : Ide LoudDrive
loud_ide = record {
  ide_write_request = λ d bytes n. (drive_ide.ide_write_request d.0 bytes n, true);
  ide_read_request = λ d n. (drive_ide.ide_read_request d.0 n, true);
  ide_read = λ d. drive_ide.ide_read d.0;
}

abbrev loud_laws : IdeLaws loud_ide
loud_laws = record {
  sector = λ d. d.0.0;
  written = λ d bytes n m. refl;
  asked = λ d n m. refl;
  answered = λ d n. refl;
}

abbrev loud_irq : Interrupting loud_ide
loud_irq = record {
  pending = λ d. d.1;
  taken = λ d. (d.0, false);
  after_write = λ d bytes n. refl;
  after_read = λ d n. refl;
  once = λ d. refl;
  bytes_kept = λ d. refl;
}

abbrev busy_loud : Disk LoudDrive
busy_loud = record { buffer = busy_cache.buffer; head = 0; queue = some 1; drive = (blank, true) }

enqueue-served_example :
    (t : Disk LoudDrive) × (dq_enqueue busy_loud 2 ≡ returns t)
    × (let u = disk_cmd_request loud_ide t 2 in
        let queued : List ℕ = 1 ∷ 0 ∷ [] in
        let order = queued ++ 2 ∷ [] in
        ((interrupts loud_ide loud_irq 3 u).queue ≡ none)
        × ((i : ℕ)
            → i ≤ 2
            → synced (node_at (interrupts loud_ide loud_irq (suc i) u) (get_or order i 0)) ≡ true)
        × ((i : ℕ)
            → i ≤ 2
            → (0 < i) ⊎ (queued ≡ [])
            → (node_at (interrupts loud_ide loud_irq (suc i) u) (get_or order i 0)).cache
              ≡ loud_laws.sector (interrupts loud_ide loud_irq i u).drive (
                  blk2sec (node_at (interrupts loud_ide loud_irq i u) (get_or order i 0)).blockno)))
enqueue-served_example =
    enqueue-served loud_ide loud_laws loud_irq busy_loud (1 ∷ 0 ∷ []) 2
      (refl, omega arith, (refl, omega arith, refl))
      (λ e. absurd (omega arith), (λ e. absurd (omega arith), tt)) (omega arith) (omega arith)

abbrev small : SuperBlock
small = record {
  nblocks = 100;
  ninodes = 20;
  ndata = 95;
  inodestart = 1;
  bmapstart = 4;
  datastart = 5;
}

-- Block 4 is the map: the first eight data blocks are in use.
abbrev full_byte : Disk Drive
full_byte = record idle_cache {
  drive = (λ n. if n == 4 then 255 ∷ replicate 511 0 else replicate bsize 0, 0);
}

abbrev full_byte-IsIdle : IsIdle full_byte
full_byte-IsIdle = record {
  within = omega arith;
  alone = refl;
  alone_back = refl;
  free = refl;
  clean = refl;
  stale = refl;
  no_queue = refl;
}

freemap_check-set_example :
    let store = bcache_store drive_ide in
    (s1 : Disk Drive) × (freemap_set store small full_byte 1 9 false ≡ returns s1)
    × ((m : ℕ)
        → InMap small m
        → (s2 : Disk Drive) × (s3 : Disk Drive) × (old : Bool) × (freemap_check store small
              full_byte 1 m
            ≡ returns (old, s2))
          × (freemap_check store small s1 1 m ≡ returns (if m == 9 then false else old, s3)))
freemap_check-set_example =
    freemap_check-set (bcache_store drive_ide) (bcache_laws drive_ide drive_laws) small full_byte 1
      9 false (omega arith) refl (record { from = omega arith; to = omega arith }) full_byte-IsIdle

block_alloc_lem_example :
    let store = bcache_store drive_ide in
    let used : Disk Drive → ℕ → Bool = is_used store (bcache_laws drive_ide drive_laws) small in
    (n : ℕ) × (s1 : Disk Drive) × (block_alloc store small full_byte 1 ≡ returns (n, s1))
    × (small.datastart ≤ n)
    × (n ≤ small.datastart + 8)
    × (n < small.datastart + 8 → used full_byte n ≡ false)
    × ((m : ℕ) → small.datastart ≤ m → m < n → used full_byte m ≡ true)
    × ((m : ℕ) → InMap small m → used s1 m ≡ (if m == n then true else used full_byte m))
    × IsIdle s1
block_alloc_lem_example =
    block_alloc_lem (bcache_store drive_ide) (bcache_laws drive_ide drive_laws) small full_byte 1
      255 (replicate 511 0) (omega arith) (omega arith) (omega arith) refl refl (omega arith)
      full_byte-IsIdle

-- An inode with two blocks, 20 and 21.
abbrev two_blocks : Files (Disk Drive)
two_blocks = record {
  disk = idle_cache;
  icache =
      record {
        dev = 1;
        inum = 2;
        nref = pos 1;
        read = true;
        d = record {
          type = FileType.file;
          major = 0;
          minor = 0;
          nlink = 1;
          size = 600;
          addrs = 20 ∷ 21 ∷ replicate 11 0;
        };
      }
      ∷ [];
}

abbrev two_blocks-CanWrite :
    CanWrite
      (bcache_store drive_ide)
      (bcache_laws drive_ide drive_laws)
      small
      two_blocks
      0
      510
      700
      (1 ∷ 2 ∷ 3 ∷ 4 ∷ [])
two_blocks-CanWrite = record {
  idle = idle_cache-IsIdle;
  cached = omega arith;
  loaded = refl;
  is_file = refl;
  starts = omega arith;
  ends = omega arith;
  mapped = record {
    direct = omega arith;
    given = elim [
      | zero ↦ λ h. refl
      | suc zero ↦ λ h. refl
      | suc (suc k) ↦ λ h. absurd (omega arith)
    ];
    whole = elim [
      | zero ↦ λ h. refl
      | suc zero ↦ λ h. refl
      | suc (suc k) ↦ λ h. absurd (omega arith)
    ];
    apart = elim [
      | zero ↦ elim [
        | zero ↦ λ h g e. refl
        | suc zero ↦ λ h g e. absurd (omega arith)
        | suc (suc k) ↦ λ h g e. absurd (omega arith)
      ]
      | suc zero ↦ elim [
        | zero ↦ λ h g e. absurd (omega arith)
        | suc zero ↦ λ h g e. refl
        | suc (suc k) ↦ λ h g e. absurd (omega arith)
      ]
      | suc (suc j) ↦ λ k h g e. absurd (omega arith)
    ];
  };
  home = elim [
    | zero ↦ λ h e. absurd (omega arith)
    | suc zero ↦ λ h e. absurd (omega arith)
    | suc (suc k) ↦ λ h e. absurd (omega arith)
  ];
}

inode_read-inode_write_example :
    let store = bcache_store drive_ide in
    let byte : Files (Disk Drive) → ℕ → ℕ → ℕ =
      file_byte store (bcache_laws drive_ide drive_laws) small in
    let buf : List ℕ = 1 ∷ 2 ∷ 3 ∷ 4 ∷ [] in
    (s1 : Files (Disk Drive)) × (s2 : Files (Disk Drive)) × (inode_write store small
        (λ n. none)
        two_blocks
        0
        buf
        510
      ≡ returns (pos (length buf), s1))
    × (inode_read store small (λ n. none) s1 0 510 (length buf)
        ≡ returns (pos (length buf), buf, s2))
    × ((inode_at s1 0).d.size ≡ max (inode_at two_blocks 0).d.size (510 + length buf))
    × ((p : ℕ)
        → p < 700
        → byte s1 0 p ≡ (
            if leb 510 p && ltb p (510 + length buf)
            then get_or buf (p - 510) 0
            else byte two_blocks 0 p))
inode_read-inode_write_example =
    inode_read-inode_write (bcache_store drive_ide) (bcache_laws drive_ide drive_laws) small
      two_blocks 0 510 700 (1 ∷ 2 ∷ 3 ∷ 4 ∷ []) (λ n. none) (λ n. none) two_blocks-CanWrite

-- what a call leaves, or `s` if it does not return
abbrev left_by : {A : Type 0} → Disk Drive → Call (A × Disk Drive) → Disk Drive
left_by s (returns r) = r.1
left_by s panics = s
left_by s spins = s

-- The first release, that of the super block at the start, leaves a cache of one node.
booted-IsIdle :
    IsIdle
      (left_by idle_cache (block_super (bcache_store drive_ide) (bcache_init 3 blank) 0 small true))
unfolding block_super bcache_init link_loop bcache_read bcache_acquire bcachce_lookup ring_find
    disk_sync synced sync_now disk_cmd_request read_block bcache_release move_front unlink
    point_front become_head
booted-IsIdle = record {
  within = omega arith;
  alone = refl;
  alone_back = refl;
  free = refl;
  clean = refl;
  stale = refl;
  no_queue = refl;
}
