-- ===== src/Dev.antt =====
-- kernel/dev and kernel/driver: what the drivers keep in memory.
pub mod Console
pub mod Keyboard
mod Tests
