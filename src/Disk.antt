-- ===== src/Disk.antt =====
-- kernel/fs: blocks of the disk, their cache, and what is stored in them.
pub mod Types
pub mod Sync
pub mod Cache
pub mod Store
pub mod Block
pub mod Dinode
pub mod Inode
pub mod Content
pub mod Dir
mod Tests
