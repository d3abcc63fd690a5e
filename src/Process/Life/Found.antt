-- ===== src/Process/Life/Found.antt =====
-- kernel/process.c: what the loop of `wait` over the process table finds.
use melon_os.Common.{
  ℕ, suc, zero, ◌+◌, ◌≡◌, refl, ◌∙◌, sym, ap, ◌⊎◌, inl, inr, Bool, true, false, ◌&&◌, ◌||◌, some,
  List, [], ◌∷◌, Bool-cases, arith, IsFirst,
}
use melon_os.Process.Types.{zero_process, Process}
use melon_os.Process.Table.{is_zombie}
use melon_os.Process.Life.{proc_eq, Scan, wait_scan}
use melon_os.Process.Life.Missed.{at, is_child}

abbrev pub dead_child : ℕ → Process → Bool
dead_child me p = proc_eq p.parent (some me) && is_zombie p.state

abbrev pub ScanReaps : ℕ → List Process → ℕ → Bool → Type 0
ScanReaps me ps b haskids =
    (d : ℕ) × IsFirst (dead_child me) ps zero_process d
    × (wait_scan ps b me haskids ≡ Scan.reap (b + d))

abbrev pub ScanWaits : ℕ → List Process → ℕ → Bool → Type 0
ScanWaits me ps b haskids =
    ((j : ℕ) → dead_child me (at ps j) ≡ false)
    × ((haskids ≡ true) ⊎ ((j : ℕ) × (is_child ps j (some me) ≡ true)))
    × (wait_scan ps b me haskids ≡ Scan.children)

abbrev pub ScanLonely : ℕ → List Process → ℕ → Bool → Type 0
ScanLonely me ps b haskids =
    ((j : ℕ) → is_child ps j (some me) ≡ false)
    × (haskids ≡ false)
    × (wait_scan ps b me haskids ≡ Scan.childless)

step-eq :
    (me : ℕ) (p : Process) (ps : List Process) (b : ℕ) (haskids : Bool)
    → dead_child me p ≡ false
    → wait_scan (p ∷ ps) b me haskids
      ≡ wait_scan ps (b + 1) me (haskids || proc_eq p.parent (some me))
unfolding wait_scan
step-eq me p ps b haskids off = elim (Bool-cases (proc_eq p.parent (some me))) [
  | inl child ↦ rw child (ground arith)
  | inr stranger ↦ rw stranger (ground arith)
]

-- What the scan finds: the first child that is a zombie, or that there are children and none is a
-- zombie, or that there are none.
pub wait_scan-cases :
    (me : ℕ) (ps : List Process) (b : ℕ) (haskids : Bool)
    → ScanReaps me ps b haskids ⊎ ScanWaits me ps b haskids ⊎ ScanLonely me ps b haskids
unfolding wait_scan
wait_scan-cases me [] b true = inr (inl ((λ j. refl), inl refl, refl))
wait_scan-cases me [] b false = inr (inr ((λ j. refl), refl, refl))
wait_scan-cases me (p ∷ ps) b haskids = elim (Bool-cases (dead_child me p)) [
  | inl dead ↦ inl (
    0,
    record { within = omega arith; passes = dead; earlier = λ j lt. elim lt [ ] },
    ground arith,
  )
  | inr off ↦
      let eq0 = step-eq me p ps b haskids off in
      elim (wait_scan-cases me ps (b + 1) (haskids || proc_eq p.parent (some me))) [
        | inl (d, first, eq) ↦ inl (
          suc d,
          record {
            within = omega (arith, first.within);
            passes = first.passes;
            earlier = elim [ zero ↦ λ lt. off | suc j ↦ λ lt. first.earlier j (omega arith) ];
          },
          eq0 ∙ eq ∙ ap Scan.reap (omega arith),
        )
        | inr (inl (alive, kids, eq)) ↦ inr (
            inl (
              (elim [ zero ↦ off | suc j ↦ alive j ]),
              elim kids [
                | inl before ↦ elim (Bool-cases haskids) [
                  | inl on ↦ inl on
                  | inr none1 ↦ inr (0, sym (rw none1 refl) ∙ before)
                ]
                | inr (j, child) ↦ inr (suc j, child)
              ],
              eq0 ∙ eq,
            ))
        | inr (inr (lonely, none1, eq)) ↦ inr (
            inr (
              (elim [ zero ↦ ground (arith, none1) | suc j ↦ lonely j ]),
              ground (arith, none1),
              eq0 ∙ eq,
            ))
      ]
]
