-- ===== src/Common/Search.antt =====
-- `for (int i = b; i < n; ++i) if (test(&t[i])) return i;`
use Prim.Native.Nat.{ℕ, zero, suc, ◌+◌, ◌<◌}
use mathlib.Core.Path.{◌≡◌}
use mathlib.Core.Logic.{inl, inr}
use mathlib.Core.Bool.{Bool, true, false}
use mathlib.Core.List.{List, [], ◌∷◌}
use mathlib.Core.Option.{Option, none, some}
use native.Mathlib.Omega.{arith}
use melon_os.Common.Tests.{if◌then◌else◌, Bool-cases}
use melon_os.Common.Lists.{length, get_or}

module _ {ℓ} {A : Type ℓ} (test : A → Bool) where
  -- The list holds the entries from index `b` on.
  unfoldable pub find_from : List A → ℕ → Option ℕ
  find_from [] b = none
  find_from (x ∷ xs) b = if test x then some b else find_from xs (b + 1)

  -- `d` is the first place, from index `b` on, of an entry that passes.
  pub record IsFirst (xs : List A) (z : A) (d : ℕ) : Type 0 where
    pub within : d < length xs
    pub passes : test (get_or xs d z) ≡ true
    pub earlier : (j : ℕ) → j < d → test (get_or xs j z) ≡ false

  pub find_from-some :
      (xs : List A) (z : A) (b i : ℕ)
      → find_from xs b ≡ some i
      → (d : ℕ) × (i ≡ b + d) × IsFirst xs z d
  unfolding find_from
  find_from-some [] z b i h = cc
  find_from-some (x ∷ xs) z b i h = elim (Bool-cases (test x)) [
    | inl on ↦ (
      0,
      ground arith,
      record { within = omega arith; passes = on; earlier = λ j lt. elim lt [ ] },
    )
    | inr off ↦
        let (d, eq, first) = find_from-some xs z (b + 1) i (rw off at h) in
        (
          suc d,
          omega arith,
          record {
            within = omega (arith, first.within);
            passes = first.passes;
            earlier = elim [ zero ↦ λ lt. off | suc j ↦ λ lt. first.earlier j (omega arith) ];
          },
        )
  ]

  pub find_from-none :
      (xs : List A) (z : A) (b : ℕ)
      → find_from xs b ≡ none
      → (j : ℕ) → j < length xs
      → test (get_or xs j z) ≡ false
  unfolding find_from
  find_from-none [] z b h j lt = elim lt [ ]
  find_from-none (x ∷ xs) z b h zero lt = elim (Bool-cases (test x)) [
    | inl on ↦ cc (rw on at h)
    | inr off ↦ off
  ]
  find_from-none (x ∷ xs) z b h (suc j) lt = elim (Bool-cases (test x)) [
    | inl on ↦ cc (rw on at h)
    | inr off ↦ find_from-none xs z (b + 1) (rw off at h) j (omega arith)
  ]
