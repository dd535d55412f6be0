-- ===== src/Scoring/Grade.antt =====
-- src/mcp_quality/scoring/scorer.py: the letter bands, their order and the cap.
pub mod Order
use mcp_probe.Base.{ℕ, String, Bool, if◌then◌else◌, leb, str_eq}
use mcp_probe.Base.Ratio
use mcp_probe.Base.Ratio.{Ratio, whole}

-- The letters of `GRADE_BANDS`.
pub data Grade : Type 0 where
  a b c d f : Grade

unfoldable pub letter : Grade → String
letter a = "A"
letter b = "B"
letter c = "C"
letter d = "D"
letter f = "F"

-- `_GRADE_ORDER[grade]`
unfoldable pub order : Grade → ℕ
order a = 4
order b = 3
order c = 2
order d = 1
order f = 0

-- `_GRADE_ORDER.get(grade, 0)` for the text of a grade, which may be none of the letters
unfoldable pub order_or_zero : String → ℕ
order_or_zero s =
    if str_eq s "A"
    then 4
    else if str_eq s "B"
    then 3
    else if str_eq s "C"
    then 2
    else if str_eq s "D"
    then 1
    else 0

-- `grade_for_score`: the first band of `GRADE_BANDS` whose threshold the score reaches
unfoldable pub grade_for_score : Ratio → Grade
grade_for_score score =
    if Ratio.leb (whole 90) score
    then a
    else if Ratio.leb (whole 80) score
    then b
    else if Ratio.leb (whole 70) score
    then c
    else if Ratio.leb (whole 60) score
    then d
    else f

-- `_cap_grade`: the worse of the two
unfoldable pub cap_grade : Grade → Grade → Grade
unfolding order
cap_grade grade cap = if leb (order grade) (order cap) then grade else cap

-- `HARD_GATE_CAP`
abbrev pub hard_gate_cap : Grade
hard_gate_cap = c
