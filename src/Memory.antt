-- ===== src/Memory.antt =====
-- kernel/memory, i386/mem.h and i386/mmu.h: physical pages, page tables and address spaces.
pub mod Word
pub mod Layout
pub mod Palloc
pub mod Mmu
pub mod Pgtbl
pub mod Vmem
mod Tests
