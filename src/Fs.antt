-- ===== src/Fs.antt =====
-- kernel/fs and kernel/pipe.c: open files, pipes, cached inodes.
pub mod Types
pub mod File
pub mod Pipe
mod Tests
