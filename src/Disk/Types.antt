-- ===== src/Disk/Types.antt =====
-- kernel/fs/fdefs.h and bcache.c: buffers of disk blocks, and calls that wait in loops.
use melon_os.Common.{ℕ, Bool, false, Option, none, List, get_or, set, replicate}

-- A call returns, stops the machine in `panic`, or never leaves a loop.
pub data Call {ℓ} (A : Type ℓ) : Type ℓ where
  returns : A → Call A
  panics : Call A
  spins : Call A

infixl 5 ◌>>=◌ ◌>>◌
abbrev pub ◌>>=◌ {ℓ κ} : {A : Type ℓ} {B : Type κ} → Call A → (A → Call B) → Call B
returns a >>= f = f a
panics >>= f = panics
spins >>= f = spins

abbrev pub ◌>>◌ {ℓ} : {B : Type ℓ} → Call (Unit {0}) → Call B → Call B
m >> k = m >>= λ _. k

-- The drive behind the ports of kernel/driver/ide.c, in state `D`: a command to write the bytes of a
-- buffer to a sector, a command to read a sector, and the bytes that are then read from the port.
pub record Ide (D : Type 0) : Type 0 where
  pub ide_write_request : D → List ℕ → ℕ → D
  pub ide_read_request : D → ℕ → D
  pub ide_read : D → List ℕ

abbrev pub bsize : ℕ
bsize = 512

-- `BNode`. A pointer to a node is its place in `buffer`; the mutex is left out, nobody takes it.
pub record BNode : Type 0 where
  pub next : ℕ
  pub prev : ℕ
  pub qnext : Option ℕ
  pub dirty : Bool
  pub valid : Bool
  pub nref : ℕ
  pub dev : ℕ
  pub blockno : ℕ
  pub cache : List ℕ

-- `bcache`, `disk_queue` and the drive
pub record Disk (D : Type 0) : Type 0 where
  pub buffer : List BNode
  pub head : ℕ
  pub queue : Option ℕ
  pub drive : D

abbrev pub zero_node : BNode
zero_node = record {
  next = 0;
  prev = 0;
  qnext = none;
  dirty = false;
  valid = false;
  nref = 0;
  dev = 0;
  blockno = 0;
  cache = replicate bsize 0;
}

pub record SuperBlock : Type 0 where
  pub nblocks : ℕ
  pub ninodes : ℕ
  pub ndata : ℕ
  pub inodestart : ℕ
  pub bmapstart : ℕ
  pub datastart : ℕ

module _ {D : Type 0} where
  abbrev pub node_at : Disk D → ℕ → BNode
  node_at s b = get_or s.buffer b zero_node

  abbrev pub put_node : Disk D → ℕ → BNode → Disk D
  put_node s b x = record s { buffer = set s.buffer b x }
