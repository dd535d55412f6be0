-- ===== src/Registry/Examples.antt =====
-- Examples of the scoring for a registry.
use mcp_probe.Models.{ServerSurface}
use mcp_probe.Registry.Fresh.{freshness-stale}
use mcp_probe.Registry.Verify.{verify-verified}
use mcp_probe.Connect.Hash.{compute_hash, with_hash}
use mcp_probe.Registry.Batch.{AreResults, score_batch-AreResults}
use mcp_probe.Connect.Discover.{
  get_raw, normalize_annotations, tool_from_raw, surface_of_object, surface_from_payload,
}
use mcp_probe.Report.Emitter.{report_to_dict}
use mcp_probe.Base.Json.{
  nat, nil, bool, get_key, end, null, of_items, cons, arr, str, field, obj, of_fields, find_field,
  Json, Fields,
}
use mcp_probe.Registry.Routes.{Response, verify}
use mcp_probe.Registry.{
  payload_error, given, freshness, scored_report, batch_entry, payload_surface, score_batch,
  score_payload,
}
use mcp_probe.Snapshot.Store.{current_rubric}
use mcp_probe.Base.{◌&&◌, ◌∷◌, [], some, none, not, str_eq, false, ◌≡◌, List, String, refl}
use mcp_probe.Pipeline.Engines.{Registry}

abbrev digest : String → String
digest s = "digest"

abbrev written : Json → String
written v = ""

abbrev no_engines : ServerSurface → Registry
no_engines surface name = none

-- A payload with one tool, and what the registry says of it.
abbrev tools_field : Fields
tools_field = field "tools" (arr (cons (obj (field "name" (str "search") end)) nil)) end

abbrev scored_tools : Fields
scored_tools = report_to_dict digest written false (
    scored_report digest written no_engines null (record {
      tools =
          record {
            name = "search";
            description = none;
            input_schema = obj end;
            output_schema = none;
            annotations = end;
            title = none;
          }
          ∷ [];
      resources = [];
      prompts = [];
      server_info = end;
      capabilities = end;
      protocol_version = "";
      transport = "stdio";
      surface_hash = "sha256:digest";
    }))

tools_scored : score_payload digest written no_engines null (obj tools_field) ≡ given scored_tools
unfolding score_payload payload_surface surface_from_payload surface_of_object tool_from_raw
    normalize_annotations with_hash compute_hash
tools_scored = refl

verify-verified_example :
    (actual : String) × (response : Response) × (find_field "provenance_hash" scored_tools
      ≡ some (str actual))
    × (verify digest written no_engines null
          (some (obj (field "provenance_hash" (str "sha256:x") tools_field)))
        ≡ some response)
    × (response.status ≡ 200)
    × (find_field "verified" response.body ≡ some (bool (str_eq "sha256:x" actual)))
verify-verified_example =
    verify-verified digest written no_engines null tools_field "sha256:x" scored_tools refl
      tools_scored

freshness-stale_example :
    (current now : String) × (doc : Fields) × (find_field "rubric_version" scored_tools
      ≡ some (str current))
    × (get_key "surface_hash" (get_raw "target" scored_tools) ≡ some (str now))
    × (freshness digest written written (obj tools_field) (str "2026.07.1") (str "sha256:digest")
        ≡ given doc)
    × (find_field "stale" doc
        ≡ some (bool (not (str_eq "2026.07.1" current && str_eq "sha256:digest" now))))
freshness-stale_example =
    freshness-stale digest written written no_engines null (obj tools_field) scored_tools
      "2026.07.1" "sha256:digest" tools_scored

-- A payload that is a text fails its entry only; a tool without a name fails the batch.
abbrev good_servers : List Json
good_servers = obj (field "id" (str "a") tools_field) ∷ str "lost" ∷ []

nameless_fails :
    score_batch digest written no_engines null
      (obj (field "tools" (arr (cons (obj end) nil)) end) ∷ good_servers)
    ≡ none
unfolding score_batch batch_entry score_payload payload_surface surface_from_payload
    surface_of_object tool_from_raw
nameless_fails = refl

abbrev good_results : List Json
good_results =
    obj (of_fields (("id", str "a") ∷ ("report", obj scored_tools) ∷ []))
    ∷ obj (of_fields (("id", null) ∷ ("error", str payload_error) ∷ []))
    ∷ []

abbrev good_batch : Fields
good_batch = of_fields (
    ("results", arr (of_items good_results))
    ∷ ("count", nat 2)
    ∷ ("rubric_version", str current_rubric)
    ∷ [])

good_scored : score_batch digest written no_engines null good_servers ≡ some good_batch
unfolding score_batch batch_entry score_payload payload_surface surface_from_payload
    surface_of_object tool_from_raw normalize_annotations with_hash compute_hash
good_scored = refl

score_batch-AreResults_example :
    (results : List Json) × (find_field "results" good_batch ≡ some (arr (of_items results)))
    × (find_field "count" good_batch ≡ some (nat 2))
    × AreResults digest written no_engines null good_servers results
score_batch-AreResults_example =
    score_batch-AreResults digest written no_engines null good_servers good_batch good_scored
