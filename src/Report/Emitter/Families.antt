-- ===== src/Report/Emitter/Families.antt =====
-- src/mcp_quality/report/json_emitter.py: which families the report has, and in which order.
use mcp_probe.Report.Rollup.{ordered_families}
use mcp_probe.Models.{FamilyScore, Report}
use mcp_probe.Report.Emitter.{canonical_names, families_out, report_to_dict}
use mcp_probe.Base.Json.{Json, find_field, obj, of_fields}
use mcp_probe.Base.Dict.{Dict, get, keys, has_key, is_some-get}
use mcp_probe.Base.{
  String, refl, List, Bool, ◌++◌, ◌≡◌, ◌∷◌, filter, ap, Option-cases, some, inl, [], inr, arith,
}
use mcp_probe.Base.Ratio.{Ratio}

keys-append : (d e : Dict Json) → keys (d ++ e) ≡ keys d ++ keys e
keys-append [] e = refl
keys-append (x ∷ d) e = ap (λ ks. x.0 ∷ ks) (keys-append d e)

keys-families_out :
    (families : Dict FamilyScore) (weights : Dict Ratio) (ns : List String)
    → keys (families_out families weights ns) ≡ filter (λ n. has_key n families) ns
unfolding families_out
keys-families_out families weights [] = refl
keys-families_out families weights (n ∷ ns) = elim (Option-cases (get n families)) [
  | inl missing ↦
      ground (arith, missing, is_some-get n families, keys-families_out families weights ns)
  | inr (fam, found) ↦
      ground (arith, found, is_some-get n families, keys-families_out families weights ns)
]

-- The families of the emitted report are those of the verdict, in its order: each family of the
-- report once, the known ones first and then the others by name.
pub report_to_dict-ordered_families :
    (sha256 : String → String) (dumps : Json → String) (include_meta : Bool) (r : Report)
    → (out : Dict Json) × (find_field "families" (report_to_dict sha256 dumps include_meta r)
        ≡ some (obj (of_fields out)))
      × (keys out ≡ ordered_families r.families)
unfolding report_to_dict ordered_families canonical_names
report_to_dict-ordered_families sha256 dumps include_meta r = (
  families_out r.families r.weights (canonical_names r.families),
  refl,
  keys-families_out r.families r.weights (canonical_names r.families),
)
