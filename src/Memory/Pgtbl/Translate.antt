-- ===== src/Memory/Pgtbl/Translate.antt =====
-- What the processor makes of the tables: the two-level walk of 32-bit paging, as arithmetic.
use melon_os.Common.{
  ℕ, ◌+◌, ◌*◌, ◌/◌, ◌%◌, ◌≡◌, true, Option, none, some, Bool, ◌==◌, if◌then◌else◌, Store,
}
use melon_os.Memory.Word.{load32}
use melon_os.Memory.Layout.{kern_base}

-- directory index, table index and frame of a word
abbrev pub dir_index : ℕ → ℕ
dir_index va = va / 4194304

abbrev pub table_index : ℕ → ℕ
table_index va = va / 4096 % 1024

abbrev pub frame : ℕ → ℕ
frame w = w / 4096 * 4096

-- the entries of the directory, and of the table that an entry of the directory points to
abbrev pub dir_entry : Store → ℕ → ℕ → ℕ
dir_entry m pgdir i = load32 m (pgdir + 4 * i)

abbrev pub table_at : Store → ℕ → ℕ → ℕ
table_at m pgdir i = frame (dir_entry m pgdir i) + kern_base

abbrev pub present : ℕ → Bool
present w = w % 2 == 1

-- the entry for a virtual page, 0 where there is no table
unfoldable pub entry : Store → ℕ → ℕ → ℕ → ℕ
entry m pgdir i j =
    if present (dir_entry m pgdir i) then load32 m (table_at m pgdir i + 4 * j) else 0

-- The entry that the processor finds for an address; it faults where the entry is not present.
abbrev pub lookup_pte : Store → ℕ → ℕ → ℕ
lookup_pte m pgdir va = entry m pgdir (dir_index va) (table_index va)

unfoldable pub translate : Store → ℕ → ℕ → Option ℕ
translate m pgdir va =
    let pte = lookup_pte m pgdir va in if present pte then some (frame pte + va % 4096) else none

pub entry_of_present :
    (m : Store) (pgdir i j : ℕ)
    → present (dir_entry m pgdir i) ≡ true
    → entry m pgdir i j ≡ load32 m (table_at m pgdir i + 4 * j)
unfolding entry
entry_of_present m pgdir i j on = rw on
