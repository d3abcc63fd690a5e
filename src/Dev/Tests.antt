-- ===== src/Dev/Tests.antt =====
-- Runs of kernel/dev/console.c on small inputs.
use melon_os.Common.{some, ℕ, ◌≡◌, refl, true, List, [], ◌∷◌, ◌++◌, replicate, ok, arith}
use melon_os.Common.Int.{pos}
use melon_os.Fs.Types.{FileType, Inode}
use melon_os.Process.Types.{Chan}
use melon_os.Process.Table.{wakeup_unlocked}
use melon_os.Dev.Keyboard.{buffer_put, buffer_full, kbd_translate, update_modifier, is_break_code}
use melon_os.Dev.Console.{
  Line, Escape, ReadOutcome, console_handler_cooked, console_read_cooked, end_line, handle_char,
  handle_normal, insert,
}
use melon_os.Dev.Console.Lines.{IsEmpty, console_read_cooked-handler}

abbrev console_inode : Inode
console_inode = record {
  dev = 1;
  inum = 3;
  nref = pos 1;
  read = true;
  d = record { type = FileType.dev; major = 1; minor = 0; nlink = 1; size = 0; addrs = [] };
}

abbrev empty_line : Line
empty_line = record {
  bytes = replicate 1024 0;
  len = 0;
  cursor = pos 0;
  state = Escape.normal;
  nnewline = 0;
  echo = [];
  table = [];
}

empty_line-IsEmpty : IsEmpty empty_line
empty_line-IsEmpty = record {
  no_bytes = refl;
  at_start = refl;
  outside = refl;
  no_line = refl;
  sized = refl;
}

console_read_cooked-handler_example :
    let cs : List ℕ = 108 ∷ 115 ∷ [] in
    let chan : Chan = Chan.object 5 in
    (t : Line) × (u : Line) × (console_handler_cooked chan empty_line (cs ++ 13 ∷ []) ≡ t)
    × (t.echo ≡ empty_line.echo ++ cs ++ 10 ∷ [])
    × (t.table ≡ wakeup_unlocked empty_line.table chan)
    × (console_read_cooked chan t 3 console_inode 80 ≡ ok (ReadOutcome.got (cs ++ 10 ∷ []), u))
    × IsEmpty u
console_read_cooked-handler_example =
    console_read_cooked-handler (Chan.object 5) empty_line 3 console_inode (108 ∷ 115 ∷ []) 80
      empty_line-IsEmpty (omega arith, omega arith, (omega arith, omega arith, tt)) (omega arith)
      (omega arith) refl

-- A character typed behind a line that has not been read yet takes the place of its newline.
typed_ahead :
    (console_handler_cooked (Chan.object 5) empty_line (97 ∷ 13 ∷ 98 ∷ [])).bytes
    ≡ 97 ∷ 98 ∷ replicate 1022 0
unfolding console_handler_cooked handle_char handle_normal insert end_line
typed_ahead = refl

-- shift, A and the release of shift; then A alone, and the 1 key under caps lock, which gives NUL
shifted : (kbd_translate (kbd_translate 0 42).1 30).0 ≡ some 65
unfolding kbd_translate update_modifier is_break_code
shifted = refl

unshifted : (kbd_translate (kbd_translate (kbd_translate 0 42).1 170).1 30).0 ≡ some 97
unfolding kbd_translate update_modifier is_break_code
unshifted = refl

capslock_one : (kbd_translate (kbd_translate 0 58).1 2).0 ≡ some 0
unfolding kbd_translate update_modifier is_break_code
capslock_one = refl

-- A ring with 256 codes in it takes another, in the place of the oldest.
overrun :
    (buffer_put (record { codes = replicate 256 7; head = 0; tail = 256 }) 9).1.codes
    ≡ 9 ∷ replicate 255 7
unfolding buffer_put buffer_full
overrun = refl
