-- ===== src/Models/Families.antt =====
-- src/mcp_quality/models.py: `class FamilyScore` and `class Report`.
use mcp_probe.Base.{
  String, Bool, true, false, Option, none, some, List, [], ◌∷◌, ◌++◌, map, flat_map, str_empty,
  if◌then◌else◌, is_empty,
}
use mcp_probe.Base.Ratio
use mcp_probe.Base.Ratio.{Ratio}
use mcp_probe.Base.Dict.{Dict, values}
use mcp_probe.Base.Json.{Json, Fields, null, bool, str, arr, obj, float, of_fields, of_items}
use mcp_probe.Models.Findings.{Finding, to_dict}
use mcp_probe.Models.Tools.{ServerSurface}

abbrev pub not_measured_grade : String
not_measured_grade = "not-measured"

pub record FamilyScore : Type 0 where
  pub family : String
  pub score : Option Ratio
  pub grade : String
  pub hard_gate_tripped : Bool
  pub findings : List Finding
  pub metrics : Dict Json
  pub measured : Bool

-- `FamilyScore.not_measured`
unfoldable pub not_measured : String → String → FamilyScore
not_measured family reason = record {
  family = family;
  score = none;
  grade = not_measured_grade;
  hard_gate_tripped = false;
  findings = [];
  metrics = if str_empty reason then [] else ("reason", str reason) ∷ [];
  measured = false;
}

abbrev positive : Ratio → Json
positive r = float (record { negative = false; size = r })

abbrev score_json : Option Ratio → Json
score_json none = null
score_json (some r) = positive (Ratio.round 10 r)

abbrev weight_field : Option Ratio → List (String × Json)
weight_field none = []
weight_field (some w) = ("weight", positive w) ∷ []

-- `FamilyScore.to_dict`
unfoldable pub family_to_dict : FamilyScore → Option Ratio → Fields
unfolding to_dict
family_to_dict f weight = of_fields (
    ("grade", str f.grade)
    ∷ (if f.measured then ("score", score_json f.score) else ("measured", bool false))
    ∷ (weight_field weight
        ++ (if f.hard_gate_tripped then ("hard_gate", bool true) ∷ [] else [])
        ++ (if is_empty f.metrics then [] else ("metrics", obj (of_fields f.metrics)) ∷ [])
        ++ ("findings", arr (of_items (map (λ (g : Finding). obj (to_dict g)) f.findings))) ∷ []))

pub record Report : Type 0 where
  pub overall_score : Option Ratio
  pub overall_grade : String
  pub families : Dict FamilyScore
  pub surface : ServerSurface
  pub rubric_version : String
  pub tool_version : String
  pub weights : Dict Ratio
  pub hard_gate : Option String
  pub regression : Option Json
  pub meta : Dict Json

-- `Report.all_findings`
unfoldable pub all_findings : Report → List Finding
all_findings r = flat_map (λ (f : FamilyScore). f.findings) (values r.families)
