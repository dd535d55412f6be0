-- ===== src/Report/History.antt =====
-- src/mcp_quality/history.py: the change of the scores between two reports or history entries.
use mcp_probe.Base.{
  String, Option, List, not, Bool, ◌++◌, option_or, ltb, ◌||◌, ◌≡◌, [], ◌∷◌, none, some, true,
  false, str_eq, if◌then◌else◌, any, map, refl, arith, str_eq_refl, ap, elem, is_some, ◌∙◌,
  any-append, sym,
}
use mcp_probe.Base.Ratio
use mcp_probe.Base.Ratio.{Ratio, Signed, ratio}
use mcp_probe.Base.Dict
use mcp_probe.Base.Dict.{is_some-get, Dict, keys}
use mcp_probe.Base.Sorting.{elem-dedup, sort_texts, dedup, elem-sort_texts}
use mcp_probe.Scoring.Grade.{order_or_zero}

-- What `_overall` and `_families` read of a document: a report or a history entry.
pub record Scores : Type 0 where
  pub rubric_version : Option String
  pub overall_score : Option Ratio
  pub overall_grade : Option String
  pub families : Dict (Option Ratio)

pub record ScoreDelta : Type 0 where
  pub overall_before : Option Ratio
  pub overall_after : Option Ratio
  pub grade_before : String
  pub grade_after : String
  pub per_family : Dict (Option Ratio × Option Ratio)
  pub rubric_mismatch : Bool

-- `{n: s for n, s in ... if s is not None}`
unfoldable pub scored : Dict (Option Ratio) → Dict Ratio
scored [] = []
scored ((k, none) ∷ d) = scored d
scored ((k, some r) ∷ d) = (k, r) ∷ scored d

abbrev same_text : Option String → Option String → Bool
same_text none none = true
same_text (some a) (some b) = str_eq a b
same_text _ _ = false

-- `sorted(set(b_fams) | set(c_fams))`
unfoldable pub all_names : Dict Ratio → Dict Ratio → List String
all_names b c = sort_texts (dedup (keys b ++ keys c))

unfoldable pub pair_of : Dict Ratio → Dict Ratio → String → String × (Option Ratio × Option Ratio)
pair_of b c name = (name, (Dict.get name b, Dict.get name c))

-- `compute_delta`
unfoldable pub compute_delta : Scores → Scores → ScoreDelta
compute_delta baseline current =
    let mismatch = not (same_text baseline.rubric_version current.rubric_version) in
    let b = scored baseline.families in
    let c = scored current.families in
    record {
      overall_before = baseline.overall_score;
      overall_after = current.overall_score;
      grade_before = option_or baseline.overall_grade "?";
      grade_after = option_or current.overall_grade "?";
      per_family = if mismatch then [] else map (pair_of b c) (all_names b c);
      rubric_mismatch = mismatch;
    }

-- `ScoreDelta.grade_dropped`
unfoldable pub grade_dropped : ScoreDelta → Bool
grade_dropped d = ltb (order_or_zero d.grade_after) (order_or_zero d.grade_before)

-- `a < b - 0.05`, with the double nearest to 0.05
unfoldable pub fell : Option Ratio → Option Ratio → Bool
fell (some b) (some a) = Ratio.ltb (Ratio.add a (ratio 3602879701896397 72057594037927936)) b
fell _ _ = false

-- `ScoreDelta.has_regression`
unfoldable pub delta_regression : ScoreDelta → Bool
delta_regression d =
    grade_dropped d
    || any (λ (p : String × (Option Ratio × Option Ratio)). fell p.1.0 p.1.1) d.per_family

-- `ScoreDelta.overall_change`, rounded to a tenth
unfoldable pub overall_change : ScoreDelta → Option Signed
overall_change d = elim d.overall_before [
  | none ↦ none
  | some before ↦ elim d.overall_after [
    | none ↦ none
    | some after ↦
        let change = Ratio.diff after before in
        some (record change { size = Ratio.round 10 change.size })
  ]
]

same_score : (o : Option Ratio) → fell o o ≡ false
unfolding fell
same_score none = refl
same_score (some r) = ground arith

same_text_refl : (o : Option String) → same_text o o ≡ true
same_text_refl none = refl
same_text_refl (some s) = str_eq_refl s

same_pairs :
    (d : Dict Ratio) (names : List String)
    → any
        (λ (p : String × (Option Ratio × Option Ratio)). fell p.1.0 p.1.1)
        (map (pair_of d d) names)
      ≡ false
unfolding pair_of
same_pairs d [] = refl
same_pairs d (name ∷ names) = ground (arith, same_score (Dict.get name d), same_pairs d names)

-- A document shows no regression against itself, and no change of its rubric.
pub compute_delta-same :
    (doc : Scores)
    → (delta_regression (compute_delta doc doc) ≡ false)
      × ((compute_delta doc doc).rubric_mismatch ≡ false)
unfolding delta_regression compute_delta grade_dropped
compute_delta-same doc = ground (
  arith,
  same_text_refl doc.rubric_version,
  same_pairs (scored doc.families) (all_names (scored doc.families) (scored doc.families)),
)

keys-pairs : (b c : Dict Ratio) (names : List String) → keys (map (pair_of b c) names) ≡ names
unfolding pair_of
keys-pairs b c [] = refl
keys-pairs b c (name ∷ names) = ap (λ (ns : List String). name ∷ ns) (keys-pairs b c names)

-- Under one rubric, the delta lists exactly the families that have a score on some side.
pub elem-compute_delta :
    (b c : Scores) (name : String)
    → (compute_delta b c).rubric_mismatch ≡ false
    → elem name (keys (compute_delta b c).per_family)
      ≡ (is_some (Dict.get name (scored b.families)) || is_some (Dict.get name (scored c.families)))
unfolding compute_delta all_names
elem-compute_delta b c name same =
    let bs = scored b.families in
    let cs = scored c.families in
    rw same (
      ap (elem name) (keys-pairs bs cs (sort_texts (dedup (keys bs ++ keys cs))))
      ∙ elem-sort_texts name (dedup (keys bs ++ keys cs))
      ∙ elem-dedup name (keys bs ++ keys cs)
      ∙ any-append (str_eq name) (keys bs) (keys cs)
      ∙ (λ i. sym (is_some-get name bs) i || sym (is_some-get name cs) i))
