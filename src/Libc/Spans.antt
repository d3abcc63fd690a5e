-- ===== src/Libc/Spans.antt =====
-- lib/string.c: `spn_helper` and its callers, `strpbrk` and `strchr`, on the bytes before the NUL. A
-- pointer into the string is an index.
use melon_os.Common.{
  ℕ, zero, suc, ◌+◌, ◌%◌, ◌<◌, ◌≤◌, ◌≡◌, ◌≢◌, ◌⊎◌, inl, inr, refl, Bool, true, false, not, ◌||◌,
  ◌==◌, if◌then◌else◌, Option, none, some, List, [], ◌∷◌, length, get_or, find_from, IsFirst,
  find_from-some, find_from-none, Option-cases, Bool-cases, ap, subst, ◌∙◌, sym, arith,
}

-- `c` is one of the bytes.
abbrev pub among : ℕ → List ℕ → Bool
among c [] = false
among c (k ∷ ks) = c == k || among c ks

-- the inner loop of `spn_helper`: whether it stops at a byte of `accept`
unfoldable pub counts : Bool → ℕ → List ℕ → Bool
counts c s [] = false
counts c s (a ∷ keys) = if (if c then not (s == a) else s == a) then true else counts c s keys

unfoldable pub spn_loop : Bool → List ℕ → List ℕ → ℕ
spn_loop c accept [] = 0
spn_loop c accept (s ∷ ss) =
    let rest = spn_loop c accept ss in if counts c s accept then rest + 1 else 0

unfoldable pub spn_helper : List ℕ → List ℕ → Bool → ℕ
spn_helper s [] c = 0
spn_helper s (a ∷ keys) c = spn_loop c (a ∷ keys) s

unfoldable pub strspn : List ℕ → List ℕ → ℕ
strspn s accept = spn_helper s accept false

unfoldable pub strcspn : List ℕ → List ℕ → ℕ
strcspn s accept = spn_helper s accept true

-- `strpbrk` on pointers that are not null
unfoldable pub strpbrk : List ℕ → List ℕ → Option ℕ
strpbrk s keys = find_from (λ c. among c keys) s 0

unfoldable pub strchr : List ℕ → ℕ → Option ℕ
strchr s chr = let b = chr % 256 in strpbrk s (if b == 0 then [] else b ∷ [])

counts-among : (s : ℕ) (keys : List ℕ) → counts false s keys ≡ among s keys
unfolding counts
counts-among s [] = refl
counts-among s (a ∷ keys) = ground (arith, counts-among s keys)

-- `n` is the length of the longest start of the string that `test` holds for.
pub record IsSpan (test : ℕ → Bool) (s : List ℕ) (n : ℕ) : Type 0 where
  pub within : n ≤ length s
  pub inside : (i : ℕ) → i < n → test (get_or s i 0) ≡ true
  pub after : (n ≡ length s) ⊎ (test (get_or s n 0) ≡ false)

IsSpan-suc :
    (test : ℕ → Bool) (b : ℕ) (s : List ℕ) (n : ℕ)
    → test b ≡ true
    → IsSpan test s n
    → IsSpan test (b ∷ s) (n + 1)
IsSpan-suc test b s n on ih = record {
  within = omega (arith, ih.within);
  inside = elim [ zero ↦ λ lt. on | suc i ↦ λ lt. ih.inside i (omega arith) ];
  after = elim ih.after [
    | inl done ↦ inl (omega (arith, done))
    | inr off ↦
        inr (ap (λ k. test (get_or (b ∷ s) k 0)) (let e : n + 1 ≡ suc n = omega arith in e) ∙ off)
  ];
}

spn_loop-IsSpan :
    (c : Bool) (accept s : List ℕ) → IsSpan (λ b. counts c b accept) s (spn_loop c accept s)
unfolding spn_loop
spn_loop-IsSpan c accept [] = record {
  within = omega arith;
  inside = λ i lt. elim lt [ ];
  after = inl refl;
}
spn_loop-IsSpan c accept (b ∷ s) = elim (Bool-cases (counts c b accept)) [
  | inl on ↦
      let ih = spn_loop-IsSpan c accept s in
      rw on (IsSpan-suc (λ b. counts c b accept) b s (spn_loop c accept s) on ih)
  | inr off ↦ rw off record { within = omega arith; inside = λ i lt. elim lt [ ]; after = inr off }
]

-- `strspn` returns the length of the longest start of the string that has bytes of `accept` only.
pub strspn-IsSpan : (s accept : List ℕ) → IsSpan (λ b. among b accept) s (strspn s accept)
unfolding strspn spn_helper
strspn-IsSpan [] [] = record {
  within = omega arith;
  inside = λ i lt. elim lt [ ];
  after = inl refl;
}
strspn-IsSpan (b ∷ s) [] = record {
  within = omega arith;
  inside = λ i lt. elim lt [ ];
  after = inr refl;
}
strspn-IsSpan s (a ∷ keys) =
    let span = spn_loop-IsSpan false (a ∷ keys) s in
    record {
      within = span.within;
      inside = λ i lt. sym (counts-among (get_or s i 0) (a ∷ keys)) ∙ span.inside i lt;
      after = elim span.after [
        | inl done ↦ inl done
        | inr off ↦
            inr (sym (counts-among (get_or s (spn_loop false (a ∷ keys) s) 0) (a ∷ keys)) ∙ off)
      ];
    }

counts-two : (a b s : ℕ) (keys : List ℕ) → a ≢ b → counts true s (a ∷ b ∷ keys) ≡ true
unfolding counts
counts-two a b s keys ne = ground (arith, ne)

-- With two different bytes in front of the set, `strcspn` returns the length of the whole string,
-- whatever it holds.
pub strcspn-two :
    (s : List ℕ) (a b : ℕ) (keys : List ℕ) → a ≢ b → strcspn s (a ∷ b ∷ keys) ≡ length s
unfolding strcspn spn_helper spn_loop
strcspn-two [] a b keys ne = refl
strcspn-two (c ∷ s) a b keys ne =
    rw (counts-two a b c keys ne) (let ih = strcspn-two s a b keys ne in omega (arith, ih))

-- `strpbrk` returns the first byte of the string that is one of the keys, or null if none is.
pub strpbrk_lem :
    (s keys : List ℕ)
    → ((i : ℕ) × (strpbrk s keys ≡ some i) × IsFirst (λ c. among c keys) s 0 i)
      ⊎ ((strpbrk s keys ≡ none) × ((j : ℕ) → j < length s → among (get_or s j 0) keys ≡ false))
unfolding strpbrk
strpbrk_lem s keys =
    let test : ℕ → Bool = λ c. among c keys in
    elim (Option-cases (find_from test s 0)) [
      | inl nothing ↦ inr (nothing, find_from-none test s 0 0 nothing)
      | inr (i, found) ↦
          let (d, eq, first) = find_from-some test s 0 0 i found in
          let same : d ≡ i = omega (arith, eq) in
          inl (i, found, subst (IsFirst test s 0) same first)
    ]
