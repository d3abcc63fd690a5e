-- ===== src/Dev/Console.antt =====
-- kernel/dev/console.c: the line buffer and the raw buffer of the console.
pub mod Lines
use melon_os.Common.{
  ℕ, zero, suc, ◌+◌, ◌-◌, ◌%◌, Bool, true, false, not, ◌&&◌, ◌||◌, ltb, leb, ◌==◌, if◌then◌else◌,
  List, [], ◌∷◌, ◌++◌, Result, ok, panic, ◌>>=◌, kassert, length, get_or, set, take, drop, min,
}
use melon_os.Common.Int.{ℤ, pos, negsuc}
use melon_os.Fs.Types.{FileType, Inode}
use melon_os.Process.Types.{Chan, Process}
use melon_os.Process.Table.{wakeup_unlocked}
use melon_os.Fs.Pipe.{put_to_sleep, killed_at}

abbrev pub line_buf_sz : ℕ
line_buf_sz = 1024

abbrev pub raw_buf_sz : ℕ
raw_buf_sz = 32

-- `DEV_CONSOLE`
abbrev pub dev_console : ℕ
dev_console = 1

pub data Escape : Type 0 where
  normal esc esc_bracket : Escape

-- `LineBuffer` with the characters sent to the port, and the process table. The lock is left out.
-- The cursor is an `int` that a backspace may take below 0.
pub record Line : Type 0 where
  pub bytes : List ℕ
  pub len : ℕ
  pub cursor : ℤ
  pub state : Escape
  pub nnewline : ℕ
  pub echo : List ℕ
  pub table : List Process

-- `uart_putc(COM1, c)`
abbrev pub putc : Line → ℕ → Line
putc s c = record s { echo = s.echo ++ c ∷ [] }

-- A write outside `data` lands in memory that is not modelled.
abbrev pub put_at : List ℕ → ℤ → ℕ → List ℕ
put_at xs (pos i) c = set xs i c
put_at xs (negsuc i) c = xs

abbrev pub get_at : List ℕ → ℤ → ℕ
get_at xs (pos i) = get_or xs i 0
get_at xs (negsuc i) = 0

abbrev pub inc_cursor : ℤ → ℤ
inc_cursor (pos n) = pos (n + 1)
inc_cursor (negsuc zero) = pos 0
inc_cursor (negsuc (suc n)) = negsuc n

abbrev pub dec_cursor : ℤ → ℤ
dec_cursor (pos zero) = negsuc 0
dec_cursor (pos (suc n)) = pos n
dec_cursor (negsuc n) = negsuc (n + 1)

-- `cursor > 0` and `cursor < len`
abbrev pub is_right : ℤ → Bool
is_right (pos n) = ltb 0 n
is_right (negsuc n) = false

abbrev pub is_inside : ℤ → ℕ → Bool
is_inside (pos n) len = ltb n len
is_inside (negsuc n) len = true

-- the loop that copies at most `n` bytes from index `r` on, up to a newline
unfoldable pub copy_line : ℕ → List ℕ → ℕ → List ℕ
copy_line zero bytes r = []
copy_line (suc n) bytes r =
    let rest = copy_line n bytes (r + 1) in
    let c = get_or bytes r 0 in if c == 10 then c ∷ [] else c ∷ rest

-- `memmove(line_buffer.data, &line_buffer.data[r], n)`
abbrev pub shift_down : List ℕ → ℕ → ℕ → List ℕ
shift_down bytes r n = take n (drop r bytes) ++ drop n bytes

-- How a round of a read ends: asleep, with the bytes it has so far, with -1, or with its bytes.
pub data ReadOutcome : Type 0 where
  asleep : List ℕ → ReadOutcome
  failed : ReadOutcome
  got : List ℕ → ReadOutcome

-- `if (ino->d.type != F_DEV || ino->d.major != DEV_CONSOLE)`
abbrev pub is_console : Inode → Bool
is_console ino = elim ino.d.type [ FileType.dev ↦ ino.d.major == dev_console | _ ↦ false ]

-- `&line_buffer` as a channel
module _ (line_chan : Chan) where
  unfoldable pub end_line : Line → Line
  end_line s =
      let t = putc s 10 in
      record t {
        bytes = set (set t.bytes t.len 10) (t.len + 1) 0;
        len = t.len + 1;
        nnewline = t.nnewline + 1;
        table = wakeup_unlocked t.table line_chan;
      }

  unfoldable pub backspace : Line → Line
  backspace s =
      let t =
        if ltb 0 s.len then record s { len = s.len - 1; cursor = dec_cursor s.cursor } else s in
      putc (putc (putc t 8) 32) 8

  unfoldable pub insert : Line → ℕ → Line
  insert s c =
      if ltb s.len (line_buf_sz - 1)
      then putc
          (record s {
            bytes = put_at s.bytes s.cursor c;
            cursor = inc_cursor s.cursor;
            len = s.len + 1;
          })
          c
      else s

  -- `STATE_NORMAL`; the port gives bytes, and one of 128 or more is a negative `char`
  unfoldable pub handle_normal : Line → ℕ → Line
  handle_normal s c =
      if c == 27
      then record s { state = Escape.esc }
      else if (c == 13) || (c == 10)
      then end_line s
      else if (c == 8) || (c == 127)
      then backspace s
      else if leb 32 c && ltb c 127
      then insert s c
      else s

  unfoldable pub handle_bracket : Line → ℕ → Line
  handle_bracket s c =
      if c == 68
      then (if is_right s.cursor then putc (record s { cursor = dec_cursor s.cursor }) 8 else s)
      else if (c == 67) && is_inside s.cursor s.len
      then record (putc s (get_at s.bytes s.cursor)) { cursor = inc_cursor s.cursor }
      else s

  unfoldable pub handle_char : Escape → Line → ℕ → Line
  handle_char Escape.normal s c = handle_normal s c
  handle_char Escape.esc s c = record s {
    state = if c == 91 then Escape.esc_bracket else Escape.normal;
  }
  handle_char Escape.esc_bracket s c = record (handle_bracket s c) { state = Escape.normal }

  -- `console_handler_cooked` on what the port gives; the byte 255 is the `char` -1.
  unfoldable pub console_handler_cooked : Line → List ℕ → Line
  console_handler_cooked s [] = s
  console_handler_cooked s (c ∷ cs) =
      let rest = console_handler_cooked (handle_char s.state s c) cs in if c == 255 then s else rest

  -- what `console_read_cooked` does once there is a line, with the bytes it has copied
  unfoldable pub take_line : Line → List ℕ → Line
  take_line s bytes =
      let r = length bytes in
      let t = record s { nnewline = s.nnewline - 1 } in
      if ltb r s.len
      then record t {
        bytes = shift_down s.bytes r (s.len - r);
        len = s.len - r;
        cursor = pos (s.len - r);
      }
      else record t { len = 0; cursor = pos 0 }

  -- a round of `console_read_cooked` by the process `me`; `n` is not negative
  unfoldable pub console_read_cooked : Line → ℕ → Inode → ℕ → Result (ReadOutcome × Line)
  console_read_cooked s me ino n =
      let bytes = copy_line (min n s.len) s.bytes 0 in
      if not (is_console ino)
      then panic
      else if s.nnewline == 0
      then ok (ReadOutcome.asleep [], record s { table = put_to_sleep s.table me line_chan })
      else ok (ReadOutcome.got bytes, take_line s bytes)

-- `raw_buffer` and the process table; its counts stay below the range of an `int`
pub record Raw : Type 0 where
  pub bytes : List ℕ
  pub nread : ℕ
  pub nwritten : ℕ
  pub table : List Process

-- the loop of `console_read_raw` up to an empty buffer: the bytes, and how many are wanting
unfoldable pub take_raw : ℕ → Raw → List ℕ × ℕ × Raw
take_raw zero s = ([], 0, s)
take_raw (suc n) s =
    let (bytes, left, t) = take_raw n (record s { nread = s.nread + 1 }) in
    if s.nread == s.nwritten
    then ([], suc n, s)
    else (get_or s.bytes (s.nread % raw_buf_sz) 0 ∷ bytes, left, t)

-- `&raw_buffer.nread` as a channel
module _ (raw_chan : Chan) where
  -- a round of `console_read_raw` by the process `me`
  unfoldable pub console_read_raw : Raw → ℕ → Inode → ℕ → Result (ReadOutcome × Raw)
  console_read_raw s me ino n =
      let (bytes, left, t) = take_raw n s in
      kassert (leb s.nread s.nwritten) >>= λ _.
      if not (is_console ino)
      then panic
      else if left == 0
      then ok (ReadOutcome.got bytes, t)
      else if killed_at t.table me
      then ok (ReadOutcome.failed, t)
      else ok (ReadOutcome.asleep bytes, record t { table = put_to_sleep t.table me raw_chan })

  -- `console_handler_raw` on what the port gives
  unfoldable pub console_handler_raw : Raw → List ℕ → Raw
  console_handler_raw s [] = s
  console_handler_raw s (c ∷ cs) =
      let put : Raw = record s {
        bytes = set s.bytes (s.nwritten % raw_buf_sz) c;
        nwritten = s.nwritten + 1;
        table = wakeup_unlocked s.table raw_chan;
      } in
      let next = if leb 128 c then s else if s.nwritten == s.nread then put else s in
      let rest = console_handler_raw next cs in if c == 255 then s else rest

-- `console_write`: the count and the characters sent
unfoldable pub console_write : Inode → List ℕ → List ℕ → Result (ℕ × List ℕ)
console_write ino out bytes =
    if not (is_console ino) then panic else ok (length bytes, out ++ bytes)
