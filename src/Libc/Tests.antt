-- ===== src/Libc/Tests.antt =====
-- Concrete strings and buffers.
use melon_os.Common.{
  [], ◌∷◌, true, false, none, length, get_or, IsFirst, List, ◌⊎◌, ℕ, zero, suc, ◌+◌, ◌-◌, ◌%◌, ◌<◌,
  ◌≡◌, refl, ◌≢◌, ◌↔◌, inl, inr, ◌&&◌, ltb, leb, if◌then◌else◌, some, Store, arith,
}
use melon_os.Common.Int.{pos, negsuc}
use melon_os.Libc.Mem.{memset, memmove, memcpy, memset_lem, memmove_lem, memcpy-memmove}
use melon_os.Libc.Str.{strlen, strncmp, strncpy, chars, strlen_lem, strncmp-zero_iff}
use melon_os.Libc.Spans.{
  among, IsSpan, strspn, strcspn, strpbrk, strspn-IsSpan, strcspn-two, strpbrk_lem,
}
use melon_os.Libc.Str.Copy.{copied, strncpy_lem}
use melon_os.Libc.Numbers.{print_int, atoi, atoi-print_int}

-- "hi" at address 0, zeros behind it
abbrev hi : Store
hi zero = 104
hi (suc zero) = 105
hi (suc (suc a)) = 0

hi-chars : (i : ℕ) → i < 2 → hi (0 + i) ≢ 0
hi-chars zero lt e = omega (arith, e)
hi-chars (suc zero) lt e = omega (arith, e)
hi-chars (suc (suc i)) lt e = omega arith

hi-bytes : (a : ℕ) → hi a < 256
hi-bytes zero = omega arith
hi-bytes (suc zero) = omega arith
hi-bytes (suc (suc a)) = omega arith

memset_lem_example : memset hi 1 300 4 2 ≡ (if leb 1 2 && ltb 2 (1 + 4) then 300 % 256 else hi 2)
memset_lem_example = memset_lem hi 1 300 4 2

memmove_lem_example :
    memmove hi 1 0 2 2 ≡ (if leb 1 2 && ltb 2 (1 + 2) then hi (0 + (2 - 1)) else hi 2)
memmove_lem_example = memmove_lem hi 1 0 2 2

memcpy-memmove_example : memcpy hi 10 0 3 ≡ memmove hi 10 0 3
memcpy-memmove_example = memcpy-memmove hi 10 0 3 (inr (omega arith))

strlen_lem_example : strlen 10 hi 0 ≡ some 2
strlen_lem_example = strlen_lem 10 hi 0 2 refl hi-chars (omega arith)

strncmp-zero_iff_example : (strncmp hi 0 1 2 ≡ pos 0) ↔ (chars hi 0 2 ≡ chars hi 1 2)
strncmp-zero_iff_example = strncmp-zero_iff hi 0 1 2 hi-bytes

-- A field of three bytes: the byte behind it is set to 0.
strncpy_lem_example : strncpy hi 10 0 3 13 ≡ copied hi 10 0 2 3 13
strncpy_lem_example =
    strncpy_lem hi 10 0 2 3 13 (omega arith) (omega arith) (inl (omega arith)) refl hi-chars

abbrev word : List ℕ
word = 97 ∷ 98 ∷ 99 ∷ []

strspn-IsSpan_example : IsSpan (λ b. among b (98 ∷ 97 ∷ [])) word (strspn word (98 ∷ 97 ∷ []))
strspn-IsSpan_example = strspn-IsSpan word (98 ∷ 97 ∷ [])

strcspn-two_example : strcspn word (97 ∷ 98 ∷ []) ≡ length word
strcspn-two_example = strcspn-two word 97 98 [] (λ e. omega (arith, e))

strpbrk_lem_example :
    let s = word in
    let keys : List ℕ = 99 ∷ [] in
    ((i : ℕ) × (strpbrk s keys ≡ some i) × IsFirst (λ c. among c keys) s 0 i)
    ⊎ ((strpbrk s keys ≡ none) × ((j : ℕ) → j < length s → among (get_or s j 0) keys ≡ false))
strpbrk_lem_example = strpbrk_lem word (99 ∷ [])

-- -43 is printed as 43.
atoi-print_int_example : atoi (print_int (negsuc 42) 10 false true) ≡ pos 43
atoi-print_int_example = atoi-print_int (negsuc 42) (omega arith) (omega arith)

minus_43 : print_int (negsuc 42) 10 false true ≡ 52 ∷ 51 ∷ []
unfolding print_int melon_os.Libc.Numbers.print_uint melon_os.Libc.Reverse.strrev
    melon_os.Libc.Numbers.digits_loop melon_os.Libc.Reverse.rev_loop
minus_43 = refl

-- The letters of %X are right, its digits are not: 0x1a gives the control character 17, then A.
upper_1a : print_int (pos 26) 16 true false ≡ 17 ∷ 65 ∷ []
unfolding print_int melon_os.Libc.Numbers.print_uint melon_os.Libc.Reverse.strrev
    melon_os.Libc.Numbers.digits_loop melon_os.Libc.Reverse.rev_loop
upper_1a = refl
