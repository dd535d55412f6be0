-- ===== src/Snapshot/Store/Rounding.antt =====
-- src/mcp_quality/snapshot/store.py: the rounding of the regression block hides no regression.
use mcp_probe.Base.{
  any, Option, ◌≡◌, ◌<◌, All, true, ◌*◌, String, filter_map, [], ◌∷◌, some, false, arith, refl,
  ◌||◌, All-filter_map, Bool, not, str_eq, if◌then◌else◌, text_or_empty,
}
use mcp_probe.Base.Dict.{Dict, values}
use mcp_probe.Base.Ratio
use mcp_probe.Base.Ratio.{Ratio, Signed, Le}
use mcp_probe.Base.Json.{Json}
use mcp_probe.Models.{ServerSurface, FamilyScore}
use mcp_probe.Snapshot.Store.{
  current_rubric, Baseline, SnapshotDiff, has_regression, noise, is_negative, round_deltas,
  family_delta, diff_to_dict, diff_against_baseline,
}
use mcp_probe.Pipeline.Gates.{regressed}

-- A delta that is no noise is more than a twentieth of a point.
above_half : (r : Ratio) → Ratio.leb noise r ≡ true → 0 < r.num → r.den < 20 * r.num
above_half r h pos = ground arith

round_pos : (r : Ratio) → r.den < 20 * r.num → 0 < Ratio.round_units 10 r
unfolding Ratio.round_units
round_pos r h = ground arith

round_zero : (r : Ratio) → r.num ≡ 0 → Ratio.round_units 10 r ≡ 0
unfolding Ratio.round_units
round_zero r h = ground arith

is_negative-round :
    (d : Signed)
    → Ratio.leb noise d.size ≡ true
    → is_negative (record d { size = Ratio.round 10 d.size }) ≡ is_negative d
is_negative-round d h =
    ground (
      arith,
      round_zero d.size,
      λ (pos : 0 < d.size.num). round_pos d.size (above_half d.size h pos),
    )

-- Every delta is above the noise.
abbrev Loud : Dict Signed → Type 0
Loud ds = All (λ (p : String × Signed). Ratio.leb noise p.1.size ≡ true) ds

any-round_deltas :
    (ds : Dict Signed)
    → Loud ds
    → any is_negative (values (round_deltas ds)) ≡ any is_negative (values ds)
any-round_deltas [] h = refl
any-round_deltas ((k, d) ∷ ds) h = λ i. is_negative-round d h.0 i || any-round_deltas ds h.1 i

loud_delta :
    (old : Dict (Option Ratio)) (p : String × FamilyScore) (q : String × Signed)
    → family_delta old p ≡ some q
    → Ratio.leb noise q.1.size ≡ true
unfolding family_delta
loud_delta old (name, fam) q h = ground arith

Loud-family_delta :
    (old : Dict (Option Ratio)) (families : Dict FamilyScore)
    → Loud (filter_map (family_delta old) families)
Loud-family_delta old families =
    All-filter_map (λ (p : String × Signed). Ratio.leb noise p.1.size ≡ true) (family_delta old)
      (loud_delta old) families

Loud-unless : (b : Bool) (ds : Dict Signed) → Loud ds → Loud (if b then [] else ds)
Loud-unless true ds h = tt
Loud-unless false ds h = h

-- The gate's reading of a block and the diff's own test differ in their order only.
regressed_of_deltas :
    (d : SnapshotDiff)
    → any is_negative (values (round_deltas d.score_delta)) ≡ any is_negative (values d.score_delta)
    → regressed (diff_to_dict d) ≡ has_regression d
unfolding regressed diff_to_dict has_regression
regressed_of_deltas d h = ground arith

Loud-score_delta :
    (hash : String → String) (dumps : Json → String) (baseline : Baseline) (surface : ServerSurface)
    (families : Dict FamilyScore)
    → Loud (diff_against_baseline hash dumps baseline surface families).score_delta
unfolding diff_against_baseline
Loud-score_delta hash dumps baseline surface families =
    Loud-unless (not (str_eq (text_or_empty baseline.rubric_version) current_rubric))
      (filter_map (family_delta baseline.family_scores) families)
      (Loud-family_delta baseline.family_scores families)

-- Of the diff against any baseline, the rounded block that the gate reads shows a regression exactly
-- when the diff has one.
pub regressed-diff_to_dict :
    (hash : String → String) (dumps : Json → String) (baseline : Baseline) (surface : ServerSurface)
    (families : Dict FamilyScore)
    → regressed (diff_to_dict (diff_against_baseline hash dumps baseline surface families))
      ≡ has_regression (diff_against_baseline hash dumps baseline surface families)
regressed-diff_to_dict hash dumps baseline surface families =
    let diff = diff_against_baseline hash dumps baseline surface families in
    regressed_of_deltas diff
      (any-round_deltas diff.score_delta (Loud-score_delta hash dumps baseline surface families))
