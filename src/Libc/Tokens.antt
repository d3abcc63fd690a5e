-- ===== src/Libc/Tokens.antt =====
-- lib/string.c: strtok_r, on the bytes before the NUL.
use melon_os.Common.{
  ℕ, ◌+◌, ◌==◌, if◌then◌else◌, Option, none, some, List, [], ◌∷◌, length, take, drop,
}
use melon_os.Libc.Spans.{strspn, strcspn}

-- the part of `strtok_r` behind the choice of `s`: the token, and what `*saveptr` is then
unfoldable pub next_token : List ℕ → List ℕ → Option (List ℕ) × List ℕ
next_token [] delim = (none, [])
next_token (b ∷ bs) delim =
    let n = strcspn (b ∷ bs) delim in
    if n == length (b ∷ bs)
    then (some (b ∷ bs), [])
    else (some (take n (b ∷ bs)), drop (n + 1) (b ∷ bs))

-- `strtok_r` with a string, and with `saved` for a null pointer
unfoldable pub strtok_first : List ℕ → List ℕ → List ℕ → Option (List ℕ) × List ℕ
strtok_first str [] saved = (none, saved)
strtok_first str (d ∷ ds) saved = next_token (drop (strspn str (d ∷ ds)) str) (d ∷ ds)

unfoldable pub strtok_next : List ℕ → List ℕ → Option (List ℕ) × List ℕ
strtok_next [] saved = (none, saved)
strtok_next (d ∷ ds) saved = next_token saved (d ∷ ds)
