-- ===== src/Process.antt =====
-- kernel/process.c: processes, their states and the switches between them.
pub mod Types
pub mod Table
pub mod Life
pub mod Sched
mod Tests
