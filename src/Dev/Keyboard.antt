-- ===== src/Dev/Keyboard.antt =====
-- kernel/driver/kbd.c: the ring of scan codes, the modifiers, and the key maps.
use melon_os.Common.{
  ℕ, ◌+◌, ◌-◌, ◌%◌, ◌^◌, Bool, true, false, not, ◌||◌, ◌==◌, if◌then◌else◌, Option, none, some,
  List, [], ◌∷◌, get_or, set, bit_and, bit_or,
}

abbrev pub buf_sz : ℕ
buf_sz = 256

-- `sc_buffer`; `head` and `tail` are 32-bit words
pub record Scancodes : Type 0 where
  pub codes : List ℕ
  pub head : ℕ
  pub tail : ℕ

unfoldable pub buffer_empty : Scancodes → Bool
buffer_empty s = s.head == s.tail

-- `%` binds before `+`: 1 is added to `tail`.
unfoldable pub buffer_full : Scancodes → Bool
buffer_full s = s.head == (s.tail + 1 % buf_sz) % 2 ^ 32

unfoldable pub buffer_put : Scancodes → ℕ → Bool × Scancodes
buffer_put s value = if buffer_full s then (false, s) else (
  true,
  record s { codes = set s.codes (s.tail % buf_sz) value; tail = (s.tail + 1) % 2 ^ 32 },
)

unfoldable pub buffer_get : Scancodes → Option ℕ × Scancodes
buffer_get s =
    if buffer_empty s
    then (none, s)
    else (some (get_or s.codes (s.head % buf_sz) 0), record s { head = (s.head + 1) % 2 ^ 32 })

-- `kbd_read` on the byte that the keyboard gives
unfoldable pub kbd_read : Scancodes → ℕ → Scancodes
kbd_read s byte = if (byte == 0) || (byte == 255) then s else (buffer_put s byte).1

-- `kbd_getscancode`, with `none` for -1
unfoldable pub kbd_getscancode : Scancodes → Option ℕ × Scancodes
kbd_getscancode s = buffer_get s

unfoldable pub is_break_code : ℕ → Bool
is_break_code scancode = not (bit_and scancode 128 == 0)

abbrev pub shift_flag : ℕ
shift_flag = 1

abbrev pub ctl_flag : ℕ
ctl_flag = 2

abbrev pub alt_flag : ℕ
alt_flag = 4

abbrev pub capslock_flag : ℕ
capslock_flag = 8

-- `modifier & ~flag` for a `uint16_t`
abbrev pub clear_flag : ℕ → ℕ → ℕ
clear_flag modifier flag = bit_and modifier (2 ^ 16 - 1 - flag)

-- `update_modifier`: whether the code is one of a modifier, and `modifier`
unfoldable pub update_modifier : ℕ → ℕ → Bool × ℕ
update_modifier modifier scancode =
    if (scancode == 42) || (scancode == 54)
    then (true, bit_or modifier shift_flag)
    else if scancode == 29
    then (true, bit_or modifier ctl_flag)
    else if scancode == 58
    then (
      true,
      if not (bit_and modifier capslock_flag == 0)
          then clear_flag modifier capslock_flag
          else bit_or modifier capslock_flag,
    )
    else if scancode == 56
    then (true, bit_or modifier alt_flag)
    else if (scancode == 42 + 128) || (scancode == 54 + 128)
    then (true, clear_flag modifier shift_flag)
    else if scancode == 29 + 128
    then (true, clear_flag modifier ctl_flag)
    else if scancode == 56 + 128
    then (true, clear_flag modifier alt_flag)
    else (false, modifier)

-- The maps up to their last entry that is not 0.
abbrev pub normalmap : List ℕ
normalmap =
    0 ∷ 27 ∷ 49 ∷ 50 ∷ 51 ∷ 52 ∷ 53 ∷ 54 ∷ 55 ∷ 56 ∷ 57 ∷ 48 ∷ 45 ∷ 61 ∷ 8 ∷ 9 ∷ 113 ∷ 119 ∷ 101
    ∷ 114 ∷ 116 ∷ 121 ∷ 117 ∷ 105 ∷ 111 ∷ 112 ∷ 91 ∷ 93 ∷ 10 ∷ 0 ∷ 97 ∷ 115 ∷ 100 ∷ 102 ∷ 103 ∷ 104
    ∷ 106 ∷ 107 ∷ 108 ∷ 59 ∷ 39 ∷ 96 ∷ 0 ∷ 92 ∷ 122 ∷ 120 ∷ 99 ∷ 118 ∷ 98 ∷ 110 ∷ 109 ∷ 44 ∷ 46 ∷ 47
    ∷ 0 ∷ 42 ∷ 0 ∷ 32 ∷ 0 ∷ 0 ∷ 0 ∷ 0 ∷ 0 ∷ 0 ∷ 0 ∷ 0 ∷ 0 ∷ 0 ∷ 0 ∷ 0 ∷ 0 ∷ 55 ∷ 56 ∷ 57 ∷ 45 ∷ 52
    ∷ 53 ∷ 54 ∷ 43 ∷ 49 ∷ 50 ∷ 51 ∷ 48 ∷ 46 ∷ 0 ∷ 0 ∷ 0 ∷ 0 ∷ 10 ∷ 47 ∷ []

abbrev pub shiftmap : List ℕ
shiftmap =
    0 ∷ 27 ∷ 33 ∷ 64 ∷ 35 ∷ 36 ∷ 37 ∷ 94 ∷ 38 ∷ 42 ∷ 40 ∷ 41 ∷ 95 ∷ 43 ∷ 8 ∷ 9 ∷ 81 ∷ 87 ∷ 69 ∷ 82
    ∷ 84 ∷ 89 ∷ 85 ∷ 73 ∷ 79 ∷ 80 ∷ 123 ∷ 125 ∷ 10 ∷ 0 ∷ 65 ∷ 83 ∷ 68 ∷ 70 ∷ 71 ∷ 72 ∷ 74 ∷ 75 ∷ 76
    ∷ 58 ∷ 34 ∷ 126 ∷ 0 ∷ 124 ∷ 90 ∷ 88 ∷ 67 ∷ 86 ∷ 66 ∷ 78 ∷ 77 ∷ 60 ∷ 62 ∷ 63 ∷ 0 ∷ 42 ∷ 0 ∷ 32
    ∷ 0 ∷ 0 ∷ 0 ∷ 0 ∷ 0 ∷ 0 ∷ 0 ∷ 0 ∷ 0 ∷ 0 ∷ 0 ∷ 0 ∷ 0 ∷ 55 ∷ 56 ∷ 57 ∷ 45 ∷ 52 ∷ 53 ∷ 54 ∷ 43 ∷ 49
    ∷ 50 ∷ 51 ∷ 48 ∷ 46 ∷ 0 ∷ 0 ∷ 0 ∷ 0 ∷ []

abbrev pub capslockmap : List ℕ
capslockmap =
    0 ∷ 0 ∷ 0 ∷ 0 ∷ 0 ∷ 0 ∷ 0 ∷ 0 ∷ 0 ∷ 0 ∷ 0 ∷ 0 ∷ 0 ∷ 0 ∷ 0 ∷ 0 ∷ 81 ∷ 87 ∷ 69 ∷ 82 ∷ 84 ∷ 89 ∷ 85
    ∷ 73 ∷ 79 ∷ 80 ∷ 0 ∷ 0 ∷ 0 ∷ 0 ∷ 65 ∷ 83 ∷ 68 ∷ 70 ∷ 71 ∷ 72 ∷ 74 ∷ 75 ∷ 76 ∷ 0 ∷ 0 ∷ 0 ∷ 0 ∷ 0
    ∷ 90 ∷ 88 ∷ 67 ∷ 86 ∷ 66 ∷ 78 ∷ 77 ∷ []

-- `kbd_translate` on a code below 256: the character, with `none` for -1, and `modifier`
unfoldable pub kbd_translate : ℕ → ℕ → Option ℕ × ℕ
kbd_translate modifier scancode =
    let (updated, m) = update_modifier modifier scancode in
    if updated || is_break_code scancode
    then (none, m)
    else if not (bit_and m shift_flag == 0)
    then (some (get_or shiftmap scancode 0), m)
    else if not (bit_and m capslock_flag == 0)
    then (some (get_or capslockmap scancode 0), m)
    else (some (get_or normalmap scancode 0), m)
