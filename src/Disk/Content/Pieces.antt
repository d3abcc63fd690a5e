-- ===== src/Disk/Content/Pieces.antt =====
-- The bytes that several writes leave, one behind the other.
use melon_os.Common.{
  ℕ, ◌+◌, ◌-◌, ◌/◌, ◌%◌, ◌<◌, ◌≤◌, ◌≡◌, ◌≢◌, sym, ap, ◌∙◌, true, false, ◌&&◌, ltb, leb, ◌==◌,
  if◌then◌else◌, if-on, if-off, List, get_or, take, drop, length, length-take, length-drop,
  get_or-drop, arith, Bool-cases, inl, inr,
}
use melon_os.Disk.Types.{bsize}
use melon_os.Disk.Content.Bytes.{get_or-take}

pub leb_shift : (a b c d : ℕ) → (b + c ≡ a + d) → leb a b ≡ leb c d
leb_shift a b c d e = ground arith

pub ltb_shift : (a b c d : ℕ) → (b + c ≡ a + d) → ltb a b ≡ ltb c d
ltb_shift a b c d e = ground arith

pub apart_test : (a b : ℕ) → (a == b) ≡ false → a ≢ b
apart_test a b h = λ e. ground arith

pub in_block :
    (offset p n : ℕ)
    → offset % bsize + n ≤ bsize
    → p / bsize ≢ offset / bsize
    → (leb offset p && ltb p (offset + n)) ≡ false
in_block offset p n h ne = elim (Bool-cases (leb offset p && ltb p (offset + n))) [
  | inr off ↦ off
  | inl on ↦
      let lo : offset ≤ p = ground arith in
      let hi : p < offset + n = ground arith in absurd (ne (omega arith))
]

pub join_writes :
    (buf : List ℕ) (n offset p x : ℕ)
    → n ≤ length buf
    → (if leb (offset + n) p && ltb p (offset + n + length (drop n buf))
        then get_or (drop n buf) (p - (offset + n)) 0
        else (if leb offset p && ltb p (offset + length (take n buf))
            then get_or (take n buf) (p - offset) 0
            else x))
      ≡ (if leb offset p && ltb p (offset + length buf) then get_or buf (p - offset) 0 else x)
join_writes buf n offset p x h =
    let len1 = length-drop n buf in
    let len2 = length-take n buf in
    let first = leb offset p && ltb p (offset + length (take n buf)) in
    let rest = leb (offset + n) p && ltb p (offset + n + length (drop n buf)) in
    let all = leb offset p && ltb p (offset + length buf) in
    elim (Bool-cases rest) [
      | inl on ↦
          let whole : all ≡ true = ground (arith, len1, len2) in
          let lo : offset + n ≤ p = ground arith in
          let at : n + (p - (offset + n)) ≡ p - offset = omega arith in
          if-on _ _ on
          ∙ get_or-drop n buf (p - (offset + n)) 0
          ∙ ap (λ j. get_or buf j 0) at
          ∙ sym (if-on (get_or buf (p - offset) 0) x whole)
      | inr off ↦ if-off _ _ off ∙ elim (Bool-cases first) [
        | inl on ↦
            let whole : all ≡ true = ground (arith, len1, len2) in
            let near : p - offset < n = ground (arith, len2) in
            if-on _ _ on
            ∙ get_or-take n buf (p - offset) 0 near
            ∙ sym (if-on (get_or buf (p - offset) 0) x whole)
        | inr off2 ↦
            let outside : all ≡ false = ground (arith, len1, len2) in
            if-off _ _ off2 ∙ sym (if-off (get_or buf (p - offset) 0) x outside)
      ]
    ]
