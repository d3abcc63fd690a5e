-- ===== src/Disk/Sync.antt =====
-- kernel/fs/disk.c: the queue of buffers that wait for the drive, and its interrupt.
pub mod Requests
pub mod Queue
pub mod Handled
pub mod Served
use melon_os.Common.{
  ℕ, zero, suc, ◌*◌, ◌/◌, Bool, true, false, ◌&&◌, not, if◌then◌else◌, Option, none, some, length,
}
use melon_os.Disk.Types.{
  Call, returns, panics, spins, ◌>>=◌, Ide, BNode, Disk, node_at, put_node, bsize,
}

-- `SECN` with the `SECSZ` of i386/defs.h
abbrev pub secn : ℕ
secn = bsize / 512

abbrev pub blk2sec : ℕ → ℕ
blk2sec blk = secn * blk

unfoldable pub synced : BNode → Bool
synced b = b.valid && not b.dirty

module _ {D : Type 0} where
  -- The loop of `dq_last` from the node `b`. A chain that has not ended after as many nodes as there
  -- are runs in a circle.
  unfoldable pub last_loop : ℕ → Disk D → ℕ → Call ℕ
  last_loop zero s b = spins
  last_loop (suc n) s b = elim (node_at s b).qnext [ none ↦ returns b | some c ↦ last_loop n s c ]

  -- `dq_last` on a queue that starts at `b`
  unfoldable pub dq_last : Disk D → ℕ → Call ℕ
  dq_last s b = last_loop (length s.buffer) s b

  unfoldable pub dq_enqueue : Disk D → ℕ → Call (Disk D)
  dq_enqueue s b =
      let s1 = put_node s b (record (node_at s b) { qnext = none }) in
      elim s1.queue [
        | none ↦ returns (record s1 { queue = some b })
        | some h ↦ do
          last ← dq_last s1 h
          returns (put_node s1 last (record (node_at s1 last) { qnext = some b }))
      ]

  unfoldable pub dq_dequeue : Disk D → Option ℕ × Disk D
  dq_dequeue s = elim s.queue [
    | none ↦ (none, s)
    | some b ↦ (some b, record s { queue = (node_at s b).qnext })
  ]

  -- `b->valid = true; b->dirty = false;`
  abbrev pub mark_synced : Disk D → ℕ → Disk D
  mark_synced s b = put_node s b (record (node_at s b) { valid = true; dirty = false })

module _ {D : Type 0} (ide : Ide D) where
  unfoldable pub disk_cmd_request : Disk D → ℕ → Disk D
  disk_cmd_request s b =
      let x = node_at s b in
      if x.dirty
      then record s { drive = ide.ide_write_request s.drive x.cache (blk2sec x.blockno) }
      else record s { drive = ide.ide_read_request s.drive (blk2sec x.blockno) }

  unfoldable pub read_block : Disk D → ℕ → Disk D
  read_block s b = put_node s b (record (node_at s b) { cache = ide.ide_read s.drive })

  -- `if (disk_queue.head) disk_cmd_request(disk_queue.head);`
  unfoldable pub request_next : Disk D → Disk D
  request_next s = elim s.queue [ none ↦ s | some h ↦ disk_cmd_request s h ]

  -- what `disk_handler` does with the node it has taken from the queue
  unfoldable pub finish : Disk D → ℕ → Disk D
  finish s b =
      let s1 = if (node_at s b).dirty then s else read_block s b in request_next (mark_synced s1 b)

  unfoldable pub disk_handler : Disk D → Disk D
  disk_handler s = let (taken, s1) = dq_dequeue s in elim taken [ none ↦ s | some b ↦ finish s1 b ]

  -- `while (!synced(b));` for so many interrupts of the drive
  unfoldable pub wait_synced : ℕ → Disk D → ℕ → Call (Disk D)
  wait_synced zero s b = if synced (node_at s b) then returns s else spins
  wait_synced (suc n) s b =
      let rest = wait_synced n (disk_handler s) b in
      if synced (node_at s b) then returns s else rest

  -- the branch of `disk_sync` that polls
  unfoldable pub sync_now : Disk D → ℕ → Disk D
  sync_now s b =
      let s1 = disk_cmd_request s b in
      let s2 = if (node_at s1 b).valid then s1 else read_block s1 b in mark_synced s2 b

  -- There are at most as many requests as nodes, so as many interrupts are let through.
  unfoldable pub disk_sync : Disk D → ℕ → Bool → Call (Disk D)
  disk_sync s b poll =
      if synced (node_at s b)
      then panics
      else if poll
      then returns (sync_now s b)
      else do s1 ← dq_enqueue s b; wait_synced (length s.buffer) (disk_cmd_request s1 b) b
