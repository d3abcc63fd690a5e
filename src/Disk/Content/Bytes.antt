-- ===== src/Disk/Content/Bytes.antt =====
-- Parts of a buffer: `take`, `drop` and memmove.
use melon_os.Common.{
  ℕ, zero, suc, ◌+◌, ◌-◌, ◌<◌, ◌≤◌, ◌≡◌, refl, sym, ap, ◌∙◌, true, false, ◌&&◌, ltb, leb, ◌==◌,
  if◌then◌else◌, if-on, if-off, List, [], ◌∷◌, ◌++◌, get_or, set, take, length, length-set,
  get_or-set, arith, Bool-cases, inl, inr, ◌⊎◌,
}
use melon_os.Disk.Dinode.{overwrite}

pub get_or-take : (n : ℕ) (xs : List ℕ) (i d : ℕ) → i < n → get_or (take n xs) i d ≡ get_or xs i d
get_or-take zero xs i d h = absurd (omega arith)
get_or-take (suc n) [] i d h = refl
get_or-take (suc n) (x ∷ xs) zero d h = refl
get_or-take (suc n) (x ∷ xs) (suc i) d h = get_or-take n xs i d (omega arith)

pub get_or-append :
    (xs ys : List ℕ) (i d : ℕ)
    → get_or (xs ++ ys) i d
      ≡ (if ltb i (length xs) then get_or xs i d else get_or ys (i - length xs) d)
get_or-append [] ys i d = ground arith
get_or-append (x ∷ xs) ys zero d = ground arith
get_or-append (x ∷ xs) ys (suc i) d = ground (arith, get_or-append xs ys i d)

pub order : (i j : ℕ) → (j < i) ⊎ (j ≡ i) ⊎ (i < j)
order i j = elim (Bool-cases (ltb j i)) [
  | inl lt ↦ inl (ground arith)
  | inr ge ↦ elim (Bool-cases (j == i)) [
    | inl eq ↦ inr (inl (ground arith))
    | inr ne ↦ inr (inr (ground arith))
  ]
]

pub length-overwrite : (xs : List ℕ) (i : ℕ) (bs : List ℕ) → length (overwrite xs i bs) ≡ length xs
unfolding overwrite
length-overwrite xs i [] = refl
length-overwrite xs i (b ∷ bs) = length-overwrite (set xs i b) (suc i) bs ∙ length-set xs i b

pub get_or-overwrite :
    (xs : List ℕ) (i : ℕ) (bs : List ℕ) (j d : ℕ)
    → i + length bs ≤ length xs
    → get_or (overwrite xs i bs) j d
      ≡ (if leb i j && ltb j (i + length bs) then get_or bs (j - i) d else get_or xs j d)
unfolding overwrite
get_or-overwrite xs i [] j d h = ground arith
get_or-overwrite xs i (b ∷ bs) j d h =
    let e = get_or-overwrite (set xs i b) (suc i) bs j d (omega (arith, length-set xs i b)) in
    let f = get_or-set xs i j b d (omega arith) in
    elim (order i j) [
      | inl below ↦ ground (arith, e, f)
      | inr (inl same) ↦
          let first : j - i ≡ 0 = omega arith in
          let test : (leb (suc i) j && ltb j (suc i + length bs)) ≡ false = ground arith in
          let test2 : (leb i j && ltb j (i + suc (length bs))) ≡ true = ground arith in
          let here : (j == i) ≡ true = ground arith in
          e
          ∙ if-off _ _ test
          ∙ f
          ∙ if-on _ _ here
          ∙ ap (λ n. get_or (b ∷ bs) n d) (sym first)
          ∙ sym (if-on (get_or (b ∷ bs) (j - i) d) (get_or xs j d) test2)
      | inr (inr above) ↦
          let next : j - i ≡ suc (j - suc i) = omega arith in rw next (ground (arith, e, f))
    ]
