-- ===== src/Libc/Reverse.antt =====
-- lib/string.c: strrev, on the bytes before the NUL.
use melon_os.Common.{
  ℕ, zero, suc, ◌+◌, ◌-◌, ◌<◌, ◌≤◌, ◌≡◌, refl, sym, ap, ◌∙◌, true, false, ◌&&◌, leb, ◌==◌,
  if◌then◌else◌, if-on, if-off, List, [], ◌∷◌, get_or, set, length, length-set, get_or-set, arith,
  Bool-cases, inl, inr,
}

-- `tmp = *b; *b = *e; *e = tmp;`
abbrev swap : List ℕ → ℕ → ℕ → List ℕ
swap s b e = set (set s b (get_or s e 0)) e (get_or s b 0)

-- The loop with `b` and `e`, which come nearer in each round.
unfoldable pub rev_loop : ℕ → List ℕ → ℕ → ℕ → List ℕ
rev_loop zero s b e = s
rev_loop (suc n) s b e =
    let rest = rev_loop n (swap s b e) (b + 1) (e - 1) in if leb (b + 1) e then rest else s

unfoldable pub strrev : List ℕ → List ℕ
strrev [] = []
strrev (c ∷ cs) = rev_loop (length cs) (c ∷ cs) 0 (length cs)

length-rev_loop : (n : ℕ) (s : List ℕ) (b e : ℕ) → length (rev_loop n s b e) ≡ length s
unfolding rev_loop
length-rev_loop zero s b e = refl
length-rev_loop (suc n) s b e = elim (Bool-cases (leb (b + 1) e)) [
  | inl on ↦
      ap length (if-on (rev_loop n (swap s b e) (b + 1) (e - 1)) s on)
      ∙ length-rev_loop n (swap s b e) (b + 1) (e - 1)
      ∙ length-set (set s b (get_or s e 0)) e (get_or s b 0)
      ∙ length-set s b (get_or s e 0)
  | inr off ↦ ap length (if-off (rev_loop n (swap s b e) (b + 1) (e - 1)) s off)
]

get_or-swap :
    (s : List ℕ) (b e j : ℕ)
    → b < e
    → e < length s
    → get_or (swap s b e) j 0
      ≡ (if j == e then get_or s b 0 else (if j == b then get_or s e 0 else get_or s j 0))
get_or-swap s b e j lt h =
    get_or-set (set s b (get_or s e 0)) e j (get_or s b 0) 0
      (omega (arith, length-set s b (get_or s e 0)))
    ∙ ap (λ x. if j == e then get_or s b 0 else x) (get_or-set s b j (get_or s e 0) 0 (omega arith))

-- With at most one place from `b` to `e` nothing is to be done.
nothing_left :
    (s : List ℕ) (b e j : ℕ)
    → e ≤ b
    → get_or s j 0 ≡ (if leb b j && leb j e then get_or s (b + e - j) 0 else get_or s j 0)
nothing_left s b e j le = elim (Bool-cases (leb b j && leb j e)) [
  | inl on ↦
      let same : b + e - j ≡ j = ground arith in
      ap (λ i. get_or s i 0) (sym same) ∙ sym (if-on (get_or s (b + e - j) 0) (get_or s j 0) on)
  | inr off ↦ sym (if-off (get_or s (b + e - j) 0) (get_or s j 0) off)
]

-- The swap of the outer places, and the reversal of what lies between them.
inner_reversed :
    (s : List ℕ) (b e j : ℕ)
    → b < e
    → e < length s
    → (if leb (b + 1) j && leb j (e - 1)
        then get_or (swap s b e) (b + 1 + (e - 1) - j) 0
        else get_or (swap s b e) j 0)
      ≡ (if leb b j && leb j e then get_or s (b + e - j) 0 else get_or s j 0)
inner_reversed s b e j lt h = elim (Bool-cases (leb (b + 1) j && leb j (e - 1))) [
  | inl on ↦
      let lo : b + 1 ≤ j = ground arith in
      let hi : j ≤ e - 1 = ground arith in
      let i = b + 1 + (e - 1) - j in
      let whole : (leb b j && leb j e) ≡ true = ground arith in
      let not_e : (i == e) ≡ false = ground arith in
      let not_b : (i == b) ≡ false = ground arith in
      let same : i ≡ b + e - j = omega arith in
      if-on _ _ on
      ∙ get_or-swap s b e i lt h
      ∙ if-off _ _ not_e
      ∙ if-off _ _ not_b
      ∙ ap (λ x. get_or s x 0) same
      ∙ sym (if-on (get_or s (b + e - j) 0) (get_or s j 0) whole)
  | inr off ↦ if-off _ _ off ∙ get_or-swap s b e j lt h ∙ elim (Bool-cases (j == e)) [
    | inl at_e ↦
        let whole : (leb b j && leb j e) ≡ true = ground arith in
        let same : b ≡ b + e - j = ground arith in
        if-on _ _ at_e
        ∙ ap (λ x. get_or s x 0) same
        ∙ sym (if-on (get_or s (b + e - j) 0) (get_or s j 0) whole)
    | inr not_e ↦ if-off _ _ not_e ∙ elim (Bool-cases (j == b)) [
      | inl at_b ↦
          let whole : (leb b j && leb j e) ≡ true = ground arith in
          let same : e ≡ b + e - j = ground arith in
          if-on _ _ at_b
          ∙ ap (λ x. get_or s x 0) same
          ∙ sym (if-on (get_or s (b + e - j) 0) (get_or s j 0) whole)
      | inr not_b ↦
          let outside : (leb b j && leb j e) ≡ false = ground arith in
          if-off _ _ not_b ∙ sym (if-off (get_or s (b + e - j) 0) (get_or s j 0) outside)
    ]
  ]
]

get_or-rev_loop :
    (n : ℕ) (s : List ℕ) (b e j : ℕ)
    → e < length s
    → e ≤ b + n
    → get_or (rev_loop n s b e) j 0
      ≡ (if leb b j && leb j e then get_or s (b + e - j) 0 else get_or s j 0)
unfolding rev_loop
get_or-rev_loop zero s b e j h le = nothing_left s b e j (omega arith)
get_or-rev_loop (suc n) s b e j h le = elim (Bool-cases (leb (b + 1) e)) [
  | inr off ↦
      let few : e ≤ b = ground arith in
      ap (λ t. get_or t j 0) (if-off (rev_loop n (swap s b e) (b + 1) (e - 1)) s off)
      ∙ nothing_left s b e j few
  | inl on ↦
      let more : b < e = ground arith in
      let size : length (swap s b e) ≡ length s =
        length-set (set s b (get_or s e 0)) e (get_or s b 0) ∙ length-set s b (get_or s e 0) in
      ap (λ t. get_or t j 0) (if-on (rev_loop n (swap s b e) (b + 1) (e - 1)) s on)
      ∙ get_or-rev_loop n (swap s b e) (b + 1) (e - 1) j (omega (arith, size)) (omega arith)
      ∙ inner_reversed s b e j more h
]

pub length-strrev : (s : List ℕ) → length (strrev s) ≡ length s
unfolding strrev
length-strrev [] = refl
length-strrev (c ∷ cs) = length-rev_loop (length cs) (c ∷ cs) 0 (length cs)

-- `strrev` puts the byte at each place where its counterpart from the other end was.
pub get_or-strrev :
    (s : List ℕ) (j : ℕ) → j < length s → get_or (strrev s) j 0 ≡ get_or s (length s - 1 - j) 0
unfolding strrev
get_or-strrev [] j h = absurd (omega arith)
get_or-strrev (c ∷ cs) j h =
    let inside : (leb 0 j && leb j (length cs)) ≡ true = ground arith in
    let place : 0 + length cs - j ≡ suc (length cs) - 1 - j = omega arith in
    get_or-rev_loop (length cs) (c ∷ cs) 0 (length cs) j (omega arith) (omega arith)
    ∙ if-on _ _ inside
    ∙ ap (λ i. get_or (c ∷ cs) i 0) place
