-- ===== src/Memory/Layout.antt =====
-- i386/mem.h: the address markers and the direct map of physical memory.
use melon_os.Common.{ℕ, ◌+◌, ◌-◌, ◌%◌, ◌^◌}

abbrev pub page_sz : ℕ
page_sz = 4096

abbrev pub extmem : ℕ
extmem = 0x100000

abbrev pub phystop : ℕ
phystop = 0x20000000

abbrev pub dev_space : ℕ
dev_space = 0xFE000000

abbrev pub kern_base : ℕ
kern_base = 0x80000000

abbrev pub kern_link : ℕ
kern_link = kern_base + extmem

-- `KA2P`: a subtraction on 32-bit words, which wraps.
abbrev pub ka2p : ℕ → ℕ
ka2p a = (a + 2 ^ 32 - kern_base) % 2 ^ 32

-- `P2KA`
abbrev pub p2ka : ℕ → ℕ
p2ka a = (a + kern_base) % 2 ^ 32
