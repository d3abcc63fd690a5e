-- ===== src/Libc/Numbers.antt =====
-- lib/fmt.c and lib/stdlib.c: numbers to text and back, on the bytes before the NUL.
use melon_os.Common.{
  same_entries, subst, ℕ, zero, suc, ◌+◌, ◌-◌, ◌*◌, ◌/◌, ◌%◌, ◌^◌, ◌<◌, ◌≤◌, ◌≡◌, refl, sym, ap,
  ◌∙◌, Bool, true, false, ltb, leb, ◌==◌, if◌then◌else◌, if-on, if-off, List, [], ◌∷◌, ◌++◌, get_or,
  length, length-append, arith, Bool-cases, inl, inr,
}
use melon_os.Common.Int.{ℤ, pos, negsuc, pos_part, neg_part, neg, is_neg}
use native.Mathlib.Nat.{pow-suc}
use melon_os.Libc.Ctype.{isdigit, isspace, toupper}
use melon_os.Libc.Reverse.{strrev, length-strrev, get_or-strrev}

-- `digits`
abbrev pub digit : ℕ → ℕ
digit d = if ltb d 10 then 48 + d else 87 + d

-- The `do` loop of `print_uint`; `n` has at most 32 digits, in any base.
unfoldable pub digits_loop : ℕ → ℕ → ℕ → Bool → List ℕ
digits_loop zero n base upper = []
digits_loop (suc k) n base upper =
    let c = digit (n % base) in
    let rest = digits_loop k (n / base) base upper in
    (if upper then toupper c % 256 else c) ∷ (if n / base == 0 then [] else rest)

-- the text that `print_uint` writes
unfoldable pub print_uint : ℕ → ℕ → Bool → List ℕ
print_uint n base upper = strrev (digits_loop 32 n base upper)

-- an `int` passed on as `unsigned`
abbrev unsigned_word : ℤ → ℕ
unsigned_word (pos n) = n % 2 ^ 32
unsigned_word (negsuc n) = 2 ^ 32 - 1 - n % 2 ^ 32

-- For `sign` a negative number is printed as `-n`, and nothing prints the sign.
unfoldable pub print_int : ℤ → ℕ → Bool → Bool → List ℕ
print_int n base upper sign =
    if sign
    then (if is_neg n
        then print_uint (unsigned_word (neg n)) base upper
        else print_uint (unsigned_word n) base upper)
    else print_uint (unsigned_word n) base upper

-- `while (isspace (*p)) p++;`
abbrev pub skip_spaces : List ℕ → List ℕ
skip_spaces [] = []
skip_spaces (c ∷ cs) = let rest = skip_spaces cs in if isspace c then rest else c ∷ cs

-- `while (isdigit (*p))`, for values in the range of an `int`
unfoldable pub digits_value : ℕ → List ℕ → ℕ
digits_value k [] = k
digits_value k (c ∷ cs) =
    let rest = digits_value (k * 10 + (c - 48)) cs in if isdigit c then rest else k

-- behind the spaces
unfoldable pub signed_value : List ℕ → ℤ
signed_value [] = pos 0
signed_value (c ∷ cs) =
    if c == 43
    then pos (digits_value 0 cs)
    else if c == 45
    then neg (pos (digits_value 0 cs))
    else pos (digits_value 0 (c ∷ cs))

unfoldable pub atoi : List ℕ → ℤ
atoi p = signed_value (skip_spaces p)

abbrev AllDigits : List ℕ → Type 0
AllDigits [] = Unit {0}
AllDigits (c ∷ cs) = (48 ≤ c) × (c ≤ 57) × AllDigits cs

abbrev backwards : List ℕ → List ℕ
backwards [] = []
backwards (c ∷ cs) = backwards cs ++ c ∷ []

length-backwards : (s : List ℕ) → length (backwards s) ≡ length s
length-backwards [] = refl
length-backwards (c ∷ cs) =
    omega (arith, length-append (backwards cs) (c ∷ []), length-backwards cs)

get_or-snoc :
    (s : List ℕ) (c j : ℕ)
    → get_or (s ++ c ∷ []) j 0
      ≡ (if ltb j (length s) then get_or s j 0 else (if j == length s then c else 0))
get_or-snoc [] c zero = refl
get_or-snoc [] c (suc j) = ground arith
get_or-snoc (d ∷ s) c zero = ground arith
get_or-snoc (d ∷ s) c (suc j) = ground (arith, get_or-snoc s c j)

get_or-backwards :
    (s : List ℕ) (j : ℕ) → j < length s → get_or (backwards s) j 0 ≡ get_or s (length s - 1 - j) 0
get_or-backwards [] j h = absurd (omega arith)
get_or-backwards (c ∷ cs) j h =
    let size = length-backwards cs in
    get_or-snoc (backwards cs) c j ∙ elim (Bool-cases (ltb j (length (backwards cs)))) [
      | inl inner ↦
          let lt : j < length cs = ground (arith, size) in
          let place : length cs - j ≡ suc (length cs - 1 - j) = omega arith in
          let whole : suc (length cs) - 1 - j ≡ length cs - j = omega arith in
          if-on _ _ inner
          ∙ get_or-backwards cs j lt
          ∙ ap (λ i. get_or (c ∷ cs) i 0) (sym (whole ∙ place))
      | inr last ↦
          let here : (j == length (backwards cs)) ≡ true = ground (arith, size) in
          let place : suc (length cs) - 1 - j ≡ 0 = ground (arith, size) in
          if-off _ _ last ∙ if-on _ _ here ∙ ap (λ i. get_or (c ∷ cs) i 0) (sym place)
    ]

strrev-backwards : (s : List ℕ) → strrev s ≡ backwards s
strrev-backwards s =
    let size = length-strrev s in
    let size2 = length-backwards s in
    same_entries (strrev s) (backwards s) 0 (size ∙ sym size2) (λ j lt.
      get_or-strrev s j (omega (arith, size2)) ∙ sym (get_or-backwards s j (omega (arith, size2))))

append-AllDigits : (xs ys : List ℕ) → AllDigits xs → AllDigits ys → AllDigits (xs ++ ys)
append-AllDigits [] ys h g = g
append-AllDigits (c ∷ cs) ys (lo, hi, h) g = (lo, hi, append-AllDigits cs ys h g)

backwards-AllDigits : (xs : List ℕ) → AllDigits xs → AllDigits (backwards xs)
backwards-AllDigits [] h = h
backwards-AllDigits (c ∷ cs) (lo, hi, h) =
    append-AllDigits (backwards cs) (c ∷ []) (backwards-AllDigits cs h) (lo, hi, tt)

digits_value-snoc :
    (k : ℕ) (xs : List ℕ) (c : ℕ)
    → AllDigits xs
    → 48 ≤ c
    → c ≤ 57
    → digits_value k (xs ++ c ∷ []) ≡ digits_value k xs * 10 + (c - 48)
unfolding digits_value
digits_value-snoc k [] c h lo hi = let on : isdigit c ≡ true = ground arith in rw on refl
digits_value-snoc k (d ∷ xs) c (low, high, h) lo hi =
    let on : isdigit d ≡ true = ground arith in
    if-on _ _ on
    ∙ digits_value-snoc (k * 10 + (d - 48)) xs c h lo hi
    ∙ ap (λ v. v * 10 + (c - 48)) (sym (if-on (digits_value (k * 10 + (d - 48)) xs) k on))

-- The digits of a number, and what they are worth.
printed :
    (k n : ℕ)
    → n < 2 ^ k
    → AllDigits (digits_loop k n 10 false)
      × (digits_value 0 (backwards (digits_loop k n 10 false)) ≡ n)
unfolding digits_loop digits_value
printed zero n h = (tt, omega arith)
printed (suc k) n h =
    let c = digit (n % 10) in
    let lo : 48 ≤ c = ground arith in
    let hi : c ≤ 57 = ground arith in
    let worth : c - 48 ≡ n % 10 = ground arith in
    elim (Bool-cases (n / 10 == 0)) [
      | inl last ↦
          let one : (if n / 10 == 0 then [] else digits_loop k (n / 10) 10 false) ≡ [] =
            if-on _ _ last in
          let small : n / 10 ≡ 0 = ground arith in
          let all : AllDigits (c ∷ []) = (lo, hi, tt) in
          (
            subst (λ rest. AllDigits (c ∷ rest)) (sym one) all,
            ap (λ rest. digits_value 0 (backwards (c ∷ rest))) one
                ∙ digits_value-snoc 0 [] c tt lo hi
                ∙ omega (arith, worth, small),
          )
      | inr more ↦
          let (all, value) = printed k (n / 10) (omega (arith, pow-suc 2 k)) in
          let rest = digits_loop k (n / 10) 10 false in
          let many : (if n / 10 == 0 then [] else rest) ≡ rest = if-off _ _ more in
          let whole : AllDigits (c ∷ rest) = (lo, hi, all) in
          (
            subst (λ r. AllDigits (c ∷ r)) (sym many) whole,
            ap (λ r. digits_value 0 (backwards (c ∷ r))) many
                ∙ digits_value-snoc 0 (backwards rest) c (backwards-AllDigits rest all) lo hi
                ∙ omega (arith, worth, value),
          )
    ]

-- `atoi` of digits alone is their worth.
atoi-digits : (s : List ℕ) → AllDigits s → atoi s ≡ pos (digits_value 0 s)
unfolding atoi signed_value digits_value
atoi-digits [] h = refl
atoi-digits (c ∷ cs) (lo, hi, h) =
    let no_space : isspace c ≡ false = ground arith in
    let no_plus : (c == 43) ≡ false = ground arith in
    let no_minus : (c == 45) ≡ false = ground arith in
    ap signed_value (if-off (skip_spaces cs) (c ∷ cs) no_space)
    ∙ if-off _ _ no_plus
    ∙ if-off _ _ no_minus

-- `atoi` reads a number back from the decimal text that `print_uint` writes.
atoi-print_uint : (n : ℕ) → n < 2 ^ 31 → atoi (print_uint n 10 false) ≡ pos n
unfolding print_uint
atoi-print_uint n h =
    let loop = digits_loop 32 n 10 false in
    let (all, value) = printed 32 n (omega arith) in
    ap atoi (strrev-backwards loop)
    ∙ atoi-digits (backwards loop) (backwards-AllDigits loop all)
    ∙ ap pos value

-- For an `int` above -2^31, atoi reads the absolute value back from the text that print_int writes
-- for %d: for a negative number the sign is lost.
pub atoi-print_int :
    (n : ℤ)
    → pos_part n < 2 ^ 31
    → neg_part n < 2 ^ 31
    → atoi (print_int n 10 false true) ≡ pos (pos_part n + neg_part n)
unfolding print_int
atoi-print_int (pos n) h g =
    let small : n % 2 ^ 32 ≡ n + 0 = omega arith in
    ap (λ m. atoi (print_uint m 10 false)) small ∙ atoi-print_uint (n + 0) (omega arith)
atoi-print_int (negsuc n) h g =
    let positive : leb 0 (suc n) ≡ true = ground arith in
    let small : (suc n - 0) % 2 ^ 32 ≡ 0 + suc n = omega arith in
    ap (λ z. atoi (print_uint (unsigned_word z) 10 false))
      (if-on (pos (suc n - 0)) (negsuc (0 - suc n - 1)) positive)
    ∙ ap (λ m. atoi (print_uint m 10 false)) small
    ∙ atoi-print_uint (0 + suc n) (omega arith)
