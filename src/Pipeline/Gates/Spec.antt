-- ===== src/Pipeline/Gates/Spec.antt =====
-- src/mcp_quality/pipeline.py: when the gates fail a run.
use mathlib.Core.List.{Memᴰ}
use mathlib.Core.List.Memᴰ.{head, tail}
use mcp_probe.Base.{
  text_or_empty, none, List, Bool, Bool-cases, inl, inr, refl, sym, ap, ◌∙◌, ◌<◌, Option-cases,
  option_or, subst, is_empty, [], ◌∷◌, String, Option, ◌≡◌, ◌↔◌, some, false, ◌≢◌, true, any, ◌⊎◌,
  arith, str_eq_iff,
}
use mcp_probe.Base.Dict
use mcp_probe.Base.Dict.{Dict, values}
use mcp_probe.Base.Ratio.{Signed}
use mcp_probe.Models.{FamilyScore, not_measured_grade}
use mcp_probe.Scoring.Grade.{order_or_zero}
use mcp_probe.Snapshot.Store.{is_negative, Regression}
use mcp_probe.Pipeline.Gates.{
  regressed, ok, gate_failure, GateConfig, below_floor, family_below, regression_blocks,
  decide_exit, String,
}

-- An element that passes a test stands in the list.
any-Memᴰ :
    {A : Type 0} (p : A → Bool) (xs : List A) → any p xs ≡ true → (x : A) × Memᴰ x xs × (p x ≡ true)
any-Memᴰ p [] h = absurd (cc)
any-Memᴰ p (x ∷ xs) h = elim (Bool-cases (p x)) [
  | inl hit ↦ (x, head refl, hit)
  | inr miss ↦ let (y, member, good) = any-Memᴰ p xs (ground arith) in (y, tail member, good)
]

Memᴰ-any :
    {A : Type 0} (p : A → Bool) (x : A) (xs : List A) → Memᴰ x xs → p x ≡ true → any p xs ≡ true
Memᴰ-any p x [] member h = elim member [ ]
Memᴰ-any p x (y ∷ ys) (head same) h = rw (sym (ap p same) ∙ h) refl
Memᴰ-any p x (y ∷ ys) (tail member) h = ground (arith, Memᴰ-any p x ys member h)

-- The floor is set, and the overall grade was measured and is a lower letter.
abbrev pub BelowFloor : GateConfig → String → Type 0
BelowFloor config grade =
    (floor : String) × (config.fail_under ≡ some floor)
    × (floor ≢ "")
    × (grade ≢ not_measured_grade)
    × (order_or_zero grade < order_or_zero floor)

-- A family with a floor was measured and has a lower letter.
abbrev pub FamilyBelow : GateConfig → Dict FamilyScore → Type 0
FamilyBelow config families =
    (family floor : String) × (fam : FamilyScore) × Memᴰ (family, floor) config.fail_under_family
    × (Dict.get family families ≡ some fam)
    × (fam.measured ≡ true)
    × (order_or_zero fam.grade < order_or_zero floor)

-- A family's score is below that of the baseline.
abbrev pub Drops : Regression → Type 0
Drops reg =
    (family : String) × (delta : Signed) × Memᴰ (family, delta) reg.score_delta
    × (delta.negative ≡ true)
    × (delta.size.num ≢ 0)

-- Regressions are not allowed, and a contract broke, a score fell, or a tool drifted or is gone.
abbrev pub Regresses : GateConfig → Option Regression → Type 0
Regresses config regression =
    (reg : Regression) × (config.no_regressions ≡ true)
    × (regression ≡ some reg)
    × ((reg.broken_contracts ≢ [])
        ⊎ (Drops reg ⊎ ((reg.capability_changes ≢ []) ⊎ (reg.removed_tools ≢ []))))

below_floor-BelowFloor_iff :
    (config : GateConfig) (grade : String)
    → below_floor config grade ≡ true ↔ BelowFloor config grade
unfolding below_floor
below_floor-BelowFloor_iff config grade = elim (Option-cases config.fail_under) [
  | inl unset ↦ (
    λ h.
        absurd
          (ground (arith, ap text_or_empty unset, str_eq_iff (text_or_empty config.fail_under) "")),
    λ (floor, set, filled, measured, below). absurd (cc),
  )
  | inr (floor, set) ↦ (
    λ h. (
      floor,
      set,
      ground (arith, set, str_eq_iff floor ""),
      ground (arith, set, str_eq_iff grade not_measured_grade),
      ground (arith, set),
    ),
    λ (other, set_other, filled, measured, below).
        ground (arith, set_other, str_eq_iff other "", str_eq_iff grade not_measured_grade),
  )
]

family_below_iff :
    (families : Dict FamilyScore) (family floor : String)
    → family_below families (family, floor) ≡ true
      ↔ (fam : FamilyScore) × (Dict.get family families ≡ some fam)
        × (fam.measured ≡ true)
        × (order_or_zero fam.grade < order_or_zero floor)
unfolding family_below
family_below_iff families family floor = elim (Option-cases (Dict.get family families)) [
  | inl absent ↦ (λ h. absurd (ground arith), λ (fam, found, measured, lower). absurd (cc))
  | inr (fam, found) ↦ (
    λ h. (fam, found, ground (arith, found), ground (arith, found)),
    λ (other, found_other, measured, below). ground (arith, found_other),
  )
]

any-family_below_iff :
    (config : GateConfig) (families : Dict FamilyScore)
    → any (family_below families) config.fail_under_family ≡ true ↔ FamilyBelow config families
any-family_below_iff config families = (
  λ h.
      let ((family, floor), listed, below) =
        any-Memᴰ (family_below families) config.fail_under_family h in
      let (fam, found, measured, lower) = (family_below_iff families family floor).0 below in
      (family, floor, fam, listed, found, measured, lower),
  λ (family, floor, fam, listed, found, measured, lower).
      Memᴰ-any (family_below families) (family, floor) config.fail_under_family listed
        ((family_below_iff families family floor).1 (fam, found, measured, lower)),
)

is_empty_iff : {A : Type 0} (xs : List A) → is_empty xs ≡ false ↔ xs ≢ []
is_empty_iff [] = (λ h. absurd (cc), λ h. absurd (h refl))
is_empty_iff (x ∷ xs) = (λ h e. absurd (cc), λ h. refl)

any-values : {V : Type 0} (p : V → Bool) (d : Dict V) → any p (values d) ≡ any (λ e. p e.1) d
any-values p [] = refl
any-values p (e ∷ d) = ground (arith, any-values p d)

any-is_negative_iff :
    (reg : Regression) → any is_negative (values reg.score_delta) ≡ true ↔ Drops reg
any-is_negative_iff reg = (
  λ h.
      let ((family, delta), listed, negative) =
        any-Memᴰ (λ e. is_negative e.1) reg.score_delta
          (sym (any-values is_negative reg.score_delta) ∙ h) in
      (family, delta, listed, ground arith, ground arith),
  λ (family, delta, listed, negative, nonzero).
      any-values is_negative reg.score_delta
      ∙ Memᴰ-any (λ e. is_negative e.1) (family, delta) reg.score_delta listed (ground arith),
)

regressed_iff :
    (reg : Regression)
    → regressed reg ≡ true
      ↔ (reg.broken_contracts ≢ [])
        ⊎ (Drops reg ⊎ ((reg.capability_changes ≢ []) ⊎ (reg.removed_tools ≢ [])))
unfolding regressed
regressed_iff reg = ground (
  arith,
  is_empty_iff reg.broken_contracts,
  any-is_negative_iff reg,
  is_empty_iff reg.capability_changes,
  is_empty_iff reg.removed_tools,
)

regression_blocks-Regresses_iff :
    (config : GateConfig) (reg : Option Regression)
    → regression_blocks config reg ≡ true ↔ Regresses config reg
unfolding regression_blocks
regression_blocks-Regresses_iff config none =
    (λ h. absurd (cc), λ (reg, on, found, bad). absurd (cc))
regression_blocks-Regresses_iff config (some reg) = (
  λ h. (reg, ground arith, refl, (regressed_iff reg).0 (ground arith)),
  λ (other, on, found, bad).
      let same : other ≡ reg = ap (λ o. option_or o other) (sym found) in
      let blocks : regressed reg ≡ true =
        subst (λ r. regressed r ≡ true) same ((regressed_iff other).1 bad) in
      ground arith,
)

-- The exit code that the gates decide is 0 or 1, and it is 1 exactly when the overall grade was
-- measured and its letter is below a floor that is set, or a measured family has a letter below the
-- floor that is listed for it, or regressions are not allowed and the diff to the baseline has a
-- broken contract, a score that fell, a tool that drifted or a tool that is gone.
pub decide_exit-gate_failure_iff :
    (config : GateConfig) (grade : String) (families : Dict FamilyScore) (reg : Option Regression)
    → ((decide_exit config grade families reg ≡ gate_failure)
        ↔ (BelowFloor config grade ⊎ (FamilyBelow config families ⊎ Regresses config reg)))
      × ((decide_exit config grade families reg ≡ ok)
          ⊎ (decide_exit config grade families reg ≡ gate_failure))
unfolding decide_exit
decide_exit-gate_failure_iff config grade families reg = ground (
  arith,
  below_floor-BelowFloor_iff config grade,
  any-family_below_iff config families,
  regression_blocks-Regresses_iff config reg,
)
