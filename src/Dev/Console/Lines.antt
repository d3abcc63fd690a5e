-- ===== src/Dev/Console/Lines.antt =====
-- kernel/dev/console.c: a line that is typed is the line that is read.
use melon_os.Common.{
  ℕ, zero, suc, ◌+◌, ◌-◌, ◌<◌, ◌≤◌, ◌≡◌, refl, sym, ap, ◌∙◌, true, false, ◌&&◌, ◌||◌, ltb, leb,
  ◌==◌, if-on, if-off, List, [], ◌∷◌, ◌++◌, append-nil, append_assoc, ok, get_or, set, length,
  length-set, length-append, get_or-set_self, get_or-set_ne, arith, min,
}
use melon_os.Common.Int.{pos}
use melon_os.Fs.Types.{Inode}
use melon_os.Process.Types.{Chan}
use melon_os.Process.Table.{wakeup_unlocked}
use melon_os.Disk.Dinode.{overwrite}
use melon_os.Disk.Content.Bytes.{length-overwrite, get_or-overwrite}
use melon_os.Dev.Console.{
  Line, Escape, insert, end_line, handle_normal, handle_char, console_handler_cooked, copy_line,
  ReadOutcome, is_console, take_line, console_read_cooked, line_buf_sz,
}

-- Characters that can be typed.
abbrev pub Printable : List ℕ → Type 0
Printable [] = Unit {0}
Printable (c ∷ cs) = (32 ≤ c) × (c < 127) × Printable cs

-- The console behind so many characters more.
abbrev pub typed : Line → List ℕ → Line
typed s cs = record s {
  bytes = overwrite s.bytes s.len cs;
  len = s.len + length cs;
  cursor = pos (s.len + length cs);
  echo = s.echo ++ cs;
}

module _ (line_chan : Chan) where
  insert_lem :
      (s : Line) (c : ℕ)
      → s.cursor ≡ pos s.len
      → s.len < 1023
      → insert line_chan s c ≡ typed s (c ∷ [])
  unfolding insert overwrite
  insert_lem s c e h =
      let room : ltb s.len (line_buf_sz - 1) ≡ true = ground arith in rw (room, e) refl

  char_lem :
      (s : Line) (c : ℕ)
      → s.state ≡ Escape.normal
      → s.cursor ≡ pos s.len
      → s.len < 1023
      → 32 ≤ c
      → c < 127
      → handle_char line_chan s.state s c ≡ typed s (c ∷ [])
  unfolding handle_char handle_normal
  char_lem s c n e h lo hi =
      let a : (c == 27) ≡ false = ground arith in
      let b : ((c == 13) || (c == 10)) ≡ false = ground arith in
      let d : ((c == 8) || (c == 127)) ≡ false = ground arith in
      let f : (leb 32 c && ltb c 127) ≡ true = ground arith in
      ap (λ st. handle_char line_chan st s c) n ∙ rw (a, b, d, f) (insert_lem s c e h)

  typed-cons : (s : Line) (c : ℕ) (cs : List ℕ) → typed (typed s (c ∷ [])) cs ≡ typed s (c ∷ cs)
  unfolding overwrite
  typed-cons s c cs =
      let one : s.len + 1 ≡ suc s.len = omega arith in
      let more : suc s.len + length cs ≡ s.len + suc (length cs) = omega arith in
      rw (one, more, append_assoc s.echo (c ∷ []) cs) refl

  typed-nil : (s : Line) → s.cursor ≡ pos s.len → typed s [] ≡ s
  unfolding overwrite
  typed-nil s e =
      let none_more : s.len + 0 ≡ s.len = omega arith in
      rw (none_more, append-nil s.echo) (ap (λ i. record s { cursor = i }) (sym e))

  typing :
      (cs rest : List ℕ) (s : Line)
      → Printable cs
      → s.state ≡ Escape.normal
      → s.cursor ≡ pos s.len
      → s.len + length cs ≤ 1023
      → console_handler_cooked line_chan s (cs ++ rest)
        ≡ console_handler_cooked line_chan (typed s cs) rest
  unfolding console_handler_cooked overwrite
  typing [] rest s p n e h = ap (λ t. console_handler_cooked line_chan t rest) (sym (typed-nil s e))
  typing (c ∷ cs) rest s (lo, hi, p) n e h =
      let more : (c == 255) ≡ false = ground arith in
      if-off s _ more
      ∙ ap (λ t. console_handler_cooked line_chan t (cs ++ rest))
          (char_lem s c n e (omega arith) lo hi)
      ∙ typing cs rest (typed s (c ∷ [])) p n refl (omega arith)
      ∙ ap (λ t. console_handler_cooked line_chan t rest) (typed-cons s c cs)

  newline_lem :
      (s : Line)
      → s.state ≡ Escape.normal
      → console_handler_cooked line_chan s (13 ∷ []) ≡ end_line line_chan s
  unfolding console_handler_cooked handle_char handle_normal
  newline_lem s n = ap (λ st. handle_char line_chan st s 13) n

copy_line_lem :
    (n : ℕ) (bytes : List ℕ) (r : ℕ) (cs : List ℕ)
    → Printable cs
    → ((j : ℕ) → j < length cs → get_or bytes (r + j) 0 ≡ get_or cs j 0)
    → get_or bytes (r + length cs) 0 ≡ 10
    → length cs < n
    → copy_line n bytes r ≡ cs ++ 10 ∷ []
unfolding copy_line
copy_line_lem zero bytes r cs p each stop h = absurd (omega arith)
copy_line_lem (suc n) bytes r [] p each stop h =
    let here : get_or bytes r 0 ≡ 10 = ap (λ i. get_or bytes i 0) (omega arith) ∙ stop in
    rw here refl
copy_line_lem (suc n) bytes r (c ∷ cs) (lo, hi, p) each stop h =
    let here : get_or bytes r 0 ≡ c =
      ap (λ i. get_or bytes i 0) (omega arith) ∙ each 0 (omega arith) in
    let other : (c == 10) ≡ false = ground arith in
    rw (here, other)
      (ap (λ rest. c ∷ rest)
        (copy_line_lem n bytes (r + 1) cs p
          (λ j lt. ap (λ i. get_or bytes i 0) (omega arith) ∙ each (suc j) (omega arith))
          (ap (λ i. get_or bytes i 0) (omega arith) ∙ stop) (omega arith)))

-- An empty line buffer.
pub record IsEmpty (s : Line) : Type 0 where
  pub no_bytes : s.len ≡ 0
  pub at_start : s.cursor ≡ pos 0
  pub outside : s.state ≡ Escape.normal
  pub no_line : s.nnewline ≡ 0
  pub sized : length s.bytes ≡ line_buf_sz

-- the buffer behind a newline
abbrev line_at_end : Chan → Line → Line
line_at_end line_chan v = record v {
  bytes = set (set v.bytes v.len 10) (v.len + 1) 0;
  len = v.len + 1;
  nnewline = v.nnewline + 1;
  echo = v.echo ++ 10 ∷ [];
  table = wakeup_unlocked v.table line_chan;
}

line_copied :
    (line_chan : Chan) (s : Line) (cs : List ℕ) (n : ℕ)
    → IsEmpty s
    → Printable cs
    → length cs ≤ 1022
    → length cs < n
    → let t = line_at_end line_chan (typed s cs) in
      copy_line (min n t.len) t.bytes 0 ≡ cs ++ 10 ∷ []
line_copied line_chan s cs n i p room enough =
    let v = typed s cs in
    let t = line_at_end line_chan v in
    let over = length-overwrite s.bytes s.len cs in
    copy_line_lem (min n t.len) t.bytes 0 cs p
      (λ j lt.
        let at : 0 + j ≡ s.len + j = omega (arith, i.no_bytes) in
        let inside : (leb s.len (s.len + j) && ltb (s.len + j) (s.len + length cs)) ≡ true =
          ground arith in
        let back : s.len + j - s.len ≡ j = omega arith in
        ap (λ k. get_or t.bytes k 0) at
        ∙ get_or-set_ne (set v.bytes v.len 10) (v.len + 1) (s.len + j) 0 0
            (λ e. absurd (omega arith))
        ∙ get_or-set_ne v.bytes v.len (s.len + j) 10 0 (λ e. absurd (omega arith))
        ∙ get_or-overwrite s.bytes s.len cs (s.len + j) 0 (omega (arith, i.no_bytes, i.sized))
        ∙ if-on _ _ inside
        ∙ ap (λ k. get_or cs k 0) back)
      (let at : 0 + length cs ≡ v.len = omega (arith, i.no_bytes) in
        ap (λ k. get_or t.bytes k 0) at
        ∙ get_or-set_ne (set v.bytes v.len 10) (v.len + 1) v.len 0 0 (λ e. absurd (omega arith))
        ∙ get_or-set_self v.bytes v.len 10 0 (omega (arith, over, i.no_bytes, i.sized)))
      (omega arith)

read_lem :
    (line_chan : Chan) (t : Line) (me : ℕ) (ino : Inode) (n : ℕ) (bytes : List ℕ)
    → is_console ino ≡ true
    → (t.nnewline == 0) ≡ false
    → copy_line (min n t.len) t.bytes 0 ≡ bytes
    → console_read_cooked line_chan t me ino n
      ≡ ok (ReadOutcome.got bytes, take_line line_chan t bytes)
unfolding console_read_cooked
read_lem line_chan t me ino n bytes h waits copied = rw (h, waits, copied) refl

take_all :
    (line_chan : Chan) (t : Line) (bytes : List ℕ)
    → ltb (length bytes) t.len ≡ false
    → take_line line_chan t bytes ≡ record t { nnewline = t.nnewline - 1; len = 0; cursor = pos 0 }
unfolding take_line
take_all line_chan t bytes whole = rw whole refl

-- Characters that fill at most 1022 places, typed into an empty line buffer and ended with return,
-- are echoed with a newline behind them and wake the readers, and a read of enough bytes gives them
-- with the newline and leaves the buffer empty.
pub console_read_cooked-handler :
    (line_chan : Chan) (s : Line) (me : ℕ) (ino : Inode) (cs : List ℕ) (n : ℕ)
    → IsEmpty s
    → Printable cs
    → length cs ≤ 1022
    → length cs < n
    → is_console ino ≡ true
    → (t : Line) × (u : Line) × (console_handler_cooked line_chan s (cs ++ 13 ∷ []) ≡ t)
      × (t.echo ≡ s.echo ++ cs ++ 10 ∷ [])
      × (t.table ≡ wakeup_unlocked s.table line_chan)
      × (console_read_cooked line_chan t me ino n ≡ ok (ReadOutcome.got (cs ++ 10 ∷ []), u))
      × IsEmpty u
unfolding end_line
console_read_cooked-handler line_chan s me ino cs n i p room enough h =
    let v = typed s cs in
    let t = line_at_end line_chan v in
    let u : Line = record t { nnewline = s.nnewline + 1 - 1; len = 0; cursor = pos 0 } in
    let copied = line_copied line_chan s cs n i p room enough in
    let size = length-append cs (10 ∷ []) in
    let whole : ltb (length (cs ++ 10 ∷ [])) t.len ≡ false = ground (arith, i.no_bytes, size) in
    let waits : (t.nnewline == 0) ≡ false = ground arith in
    (
      t,
      u,
      typing line_chan cs (13 ∷ []) s p i.outside (i.at_start ∙ ap (λ k. pos k) (sym i.no_bytes))
            (omega (arith, i.no_bytes))
          ∙ newline_lem line_chan v i.outside,
      refl,
      refl,
      read_lem line_chan t me ino n (cs ++ 10 ∷ []) h waits copied
          ∙ ap (λ w. ok (ReadOutcome.got (cs ++ 10 ∷ []), w))
              (take_all line_chan t (cs ++ 10 ∷ []) whole),
      record {
        no_bytes = refl;
        at_start = refl;
        outside = i.outside;
        no_line = omega (arith, i.no_line);
        sized =
            length-set (set v.bytes v.len 10) (v.len + 1) 0
            ∙ length-set v.bytes v.len 10
            ∙ length-overwrite s.bytes s.len cs
            ∙ i.sized;
      },
    )
