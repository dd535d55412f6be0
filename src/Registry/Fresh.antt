-- ===== src/Registry/Fresh.antt =====
-- src/mcp_quality/registry.py: when a stored grade is stale.
use mcp_probe.Models.{ServerSurface}
use mcp_probe.Registry.Verify.{score_payload-given}
use mcp_probe.Connect.Discover.{get_raw}
use mcp_probe.Registry.{
  fresh_of, static_report, scored_report, freshness_of, given, score_payload, freshness,
}
use mcp_probe.Report.Emitter.{report_to_dict}
use mcp_probe.Base.Json.{bool, str, get_key, find_field, Json, Fields}
use mcp_probe.Snapshot.Store.{current_rubric}
use mcp_probe.Base.{arith, sym, ap, ◌&&◌, str_eq, not, some, ◌≡◌, String}
use mcp_probe.Pipeline.Engines.{Registry}

-- For a payload that is scored, a stored grade is stale exactly where its rubric or its surface
-- hash is another one than the report of the score has.
pub freshness-stale :
    (sha256 : String → String) (dumps show : Json → String) (registry : ServerSurface → Registry)
    (elapsed : Json) (payload : Json) (report : Fields) (rubric hash : String)
    → score_payload sha256 dumps registry elapsed payload ≡ given report
    → (current now : String) × (doc : Fields) × (find_field "rubric_version" report
        ≡ some (str current))
      × (get_key "surface_hash" (get_raw "target" report) ≡ some (str now))
      × (freshness sha256 dumps show payload (str rubric) (str hash) ≡ given doc)
      × (find_field "stale" doc ≡ some (bool (not (str_eq rubric current && str_eq hash now))))
unfolding freshness freshness_of report_to_dict scored_report static_report
freshness-stale sha256 dumps show registry elapsed payload report rubric hash h =
    let (surface, found, made) =
      score_payload-given sha256 dumps registry elapsed payload report h in
    (
      current_rubric,
      surface.surface_hash,
      freshness_of sha256 dumps show (str rubric) (str hash) surface.surface_hash,
      ap (find_field "rubric_version") (sym made),
      ap (λ r. get_key "surface_hash" (get_raw "target" r)) (sym made),
      ap (fresh_of sha256 dumps show (str rubric) (str hash)) found,
      ap (λ b. some (bool b)) (ground arith),
    )
