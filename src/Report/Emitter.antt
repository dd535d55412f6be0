-- ===== src/Report/Emitter.antt =====
-- src/mcp_quality/report/json_emitter.py, and `Report.provenance_hash` of src/mcp_quality/models.py:
-- the report as JSON. SHA-256 and `json.dumps` are parameters.
pub mod Families
use mcp_probe.Base.Sorting.{sort_texts, sort}
use mcp_probe.Base.Json.{
  Json, obj, null, str, of_fields, Fields, bool, ratio_json, arr, of_items, strs,
}
use mcp_probe.Report.Rollup.{Verdict, Blocker, all_families, quality_verdict}
use mcp_probe.Base.Dict.{Dict, get, keys}
use mcp_probe.Base.Ratio
use mcp_probe.Base.Ratio.{Ratio}
use mcp_probe.Base.{
  elem, filter, String, Option, if◌then◌else◌, List, ◌<>◌, Bool, [], ◌∷◌, some, ◌++◌, none, true,
  false, zero, suc, inl, inr, ◌&&◌, not, map, is_empty,
}
use mcp_probe.Models.{FamilyScore, Report, family_to_dict, not_measured_grade}
use mcp_probe.Connect.Hash.{by_name}

abbrev pub report_schema : String
report_schema = "mcp-quality/report@1"

-- `round(x, 1) if x is not None else None`
abbrev rounded : Option Ratio → Json
rounded none = null
rounded (some r) = ratio_json (Ratio.round 10 r)

abbrev exact : Option Ratio → Json
exact none = null
exact (some r) = ratio_json r

abbrev pub optional_text : Option String → Json
optional_text none = null
optional_text (some s) = str s

-- `fam.score if fam.measured else NOT_MEASURED`
abbrev pub basis_item : String × FamilyScore → String × Json
basis_item (name, fam) = (name, if fam.measured then exact fam.score else str not_measured_grade)

-- `basis`; no two families have one name, so the items are in the order of their names
unfoldable pub provenance_basis : Report → Json
provenance_basis r = obj (
    of_fields (
      ("surface_hash", str r.surface.surface_hash)
      ∷ ("rubric_version", str r.rubric_version)
      ∷ ("overall", exact r.overall_score)
      ∷ ("families", obj (of_fields (sort by_name (map basis_item r.families))))
      ∷ []))

abbrev blocker_json : Blocker → Json
blocker_json b = obj (
    of_fields (
      ("family", str b.family)
      ∷ ("reason", str b.reason)
      ∷ ("remediation", optional_text b.remediation)
      ∷ []))

abbrev pub verdict_json : Verdict → Json
verdict_json v = obj (
    of_fields (
      ("passed", bool v.passed)
      ∷ ("blockers", arr (of_items (map blocker_json v.blockers)))
      ∷ ("caveats", strs v.caveats)
      ∷ []))

-- `(*ALL_FAMILIES, *extra)`
unfoldable pub canonical_names : Dict FamilyScore → List String
canonical_names families =
    all_families ++ sort_texts (filter (λ n. not (elem n all_families)) (keys families))

-- What one turn of the loop over the names writes
abbrev pub emit_one : Option Ratio → String → Option FamilyScore → Dict Json
emit_one weight name none = []
emit_one weight name (some fam) = (name, obj (family_to_dict fam weight)) ∷ []

-- `families_out`
unfoldable pub families_out : Dict FamilyScore → Dict Ratio → List String → Dict Json
families_out families weights [] = []
families_out families weights (n ∷ ns) =
    emit_one (get n weights) n (get n families) ++ families_out families weights ns

abbrev regression_field : Option Json → Dict Json
regression_field none = []
regression_field (some v) = ("regression", v) ∷ []

module _ (sha256 : String → String) (dumps : Json → String) where
  -- `Report.provenance_hash`
  unfoldable pub provenance_hash : Report → String
  provenance_hash r = "sha256:" <> sha256 (dumps (provenance_basis r))

  -- `report_to_dict`
  unfoldable pub report_to_dict : Bool → Report → Fields
  report_to_dict include_meta r =
      let target = of_fields (
        ("transport", str r.surface.transport)
        ∷ ("protocol_version", str r.surface.protocol_version)
        ∷ ("surface_hash", str r.surface.surface_hash)
        ∷ []) in
      let overall = of_fields (
        ("score", rounded r.overall_score)
        ∷ ("grade", str r.overall_grade)
        ∷ ("hard_gate", optional_text r.hard_gate)
        ∷ []) in
      of_fields (
        ("schema", str report_schema)
        ∷ ("rubric_version", str r.rubric_version)
        ∷ ("tool_version", str r.tool_version)
        ∷ ("target", obj target)
        ∷ ("overall", obj overall)
        ∷ (
          "families",
          obj (of_fields (families_out r.families r.weights (canonical_names r.families))),
        )
        ∷ ("verdict", verdict_json (quality_verdict r))
        ∷ (regression_field r.regression
            ++ ("provenance_hash", str (provenance_hash r))
              ∷ (if include_meta && not (is_empty r.meta)
                  then ("meta", obj (of_fields r.meta)) ∷ []
                  else [])))
