-- ===== src/Libc.antt =====
-- lib/: the C library that the kernel and the user programs link.
pub mod Mem
pub mod Str
pub mod Spans
pub mod Tokens
pub mod Reverse
pub mod Ctype
pub mod Numbers
mod Tests
