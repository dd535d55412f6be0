-- ===== src/Registry.antt =====
-- src/mcp_quality/registry.py: scoring of a dump for a registry. The engines are those of the
-- pipeline; SHA-256, `json.dumps` and `repr` are parameters, and so is the time of a run.
pub mod Routes
pub mod Verify
pub mod Batch
pub mod Fresh
mod Examples
use mcp_probe.Base.Sorting.{sort_texts}
use mcp_probe.Report.Emitter.{report_to_dict}
use mcp_probe.Connect.Discover.{surface_from_payload}
use mcp_probe.Base.Json.{
  nat, null, bool, is_text, get_key, strs, of_items, obj, str, arr, Fields, Json, of_fields,
}
use mcp_probe.Snapshot.Store.{current_rubric}
use mcp_probe.Base.{
  length, ◌++◌, ◌||◌, [], ◌<>◌, none, not, Bool, ◌∷◌, true, if◌then◌else◌, option_or, traverse,
  some, List, Option, false, ◌>>=◌, String,
}
use mcp_probe.Base.Dict.{keys}
use mcp_probe.Models.{Report, ServerSurface}
use mcp_probe.Pipeline.Engines.{Registry}
use mcp_probe.Pipeline.Run.{RunConfig, RunOutcome, run_probe}

abbrev pub registry_families : List String
registry_families = "contract" ∷ "cost" ∷ "security" ∷ []

-- `ProbeConfig(families=families, static_path="<registry>")`, as the pipeline reads it
abbrev pub registry_config : RunConfig
registry_config = record {
  families = registry_families;
  seed = 42;
  reliability_k = 1;
  deep_security = false;
  gates = record { fail_under = none; fail_under_family = []; no_regressions = false };
}

-- What a call gives: a value, a ValueError with its text, or another exception
pub data Scored (A : Type 0) : Type 0 where
  given : A → Scored A
  value_error : String → Scored A
  uncaught : Scored A

abbrev pub payload_error : String
payload_error = "payload must be a list or object with a 'tools' array"

-- A surface, or another exception
abbrev built : Option ServerSurface → Scored ServerSurface
built none = uncaught
built (some surface) = given surface

module _ (sha256 : String → String) (dumps : Json → String) where
  -- `surface_from_payload`, whose one ValueError is a payload that is no list and no object
  unfoldable pub payload_surface : Json → Scored ServerSurface
  payload_surface (arr tools) = built (surface_from_payload sha256 dumps (arr tools))
  payload_surface (obj fs) = built (surface_from_payload sha256 dumps (obj fs))
  payload_surface v = value_error payload_error

  module _ (show : Json → String) where
    -- `f"{rubric_version}"`
    abbrev shown : Json → String
    shown (str s) = s
    shown v = show v

    -- `reasons`
    unfoldable pub stale_reasons : Json → Bool → Bool → List String
    stale_reasons rubric rubric_stale surface_stale =
        (if rubric_stale
          then ("rubric changed (" <> shown rubric <> " → " <> current_rubric <> ")") ∷ []
          else [])
        ++ (if surface_stale then "server surface changed since the last score" ∷ [] else [])

    -- What `freshness` returns for the current hash
    unfoldable pub freshness_of : Json → Json → String → Fields
    freshness_of rubric hash current =
        let rubric_stale = not (is_text current_rubric (some rubric)) in
        let surface_stale = not (is_text current (some hash)) in
        of_fields (
          ("stale", bool (rubric_stale || surface_stale))
          ∷ ("reasons", strs (stale_reasons rubric rubric_stale surface_stale))
          ∷ ("current_rubric_version", str current_rubric)
          ∷ ("current_surface_hash", str current)
          ∷ [])

    abbrev fresh_of : Json → Json → Scored ServerSurface → Scored Fields
    fresh_of rubric hash (given surface) = given (freshness_of rubric hash surface.surface_hash)
    fresh_of rubric hash (value_error text) = value_error text
    fresh_of rubric hash uncaught = uncaught

    -- `freshness`
    unfoldable pub freshness : Json → Json → Json → Scored Fields
    freshness payload rubric hash = fresh_of rubric hash (payload_surface payload)

  -- `registry` is what the engines give for the surface of a payload.
  module _ (registry : ServerSurface → Registry) (elapsed : Json) where
    -- The report of a static run, as `run_probe` builds it without a snapshot
    unfoldable pub static_report : RunOutcome → ServerSurface → Report
    static_report outcome surface = record {
      overall_score = outcome.result.overall_score;
      overall_grade = outcome.result.overall_grade;
      families = outcome.families;
      surface = surface;
      rubric_version = current_rubric;
      tool_version = "0.8.0";
      weights = outcome.result.effective_weights;
      hard_gate = outcome.result.hard_gate;
      regression = none;
      meta =
          ("elapsed_s", elapsed)
          ∷ ("mode", str "static")
          ∷ ("families_run", strs (sort_texts (keys outcome.families)))
          ∷ [];
    }

    -- The report of a surface
    unfoldable pub scored_report : ServerSurface → Report
    scored_report surface =
        static_report
          (run_probe sha256 dumps (registry surface) [] registry_config true none surface) surface

    abbrev score_of : Scored ServerSurface → Scored Fields
    score_of (given surface) = given (report_to_dict sha256 dumps false (scored_report surface))
    score_of (value_error text) = value_error text
    score_of uncaught = uncaught

    -- `score_payload`
    unfoldable pub score_payload : Json → Scored Fields
    score_payload payload = score_of (payload_surface payload)

    -- `entry.get("id") if isinstance(entry, dict) else None`
    abbrev pub entry_id : Json → Json
    entry_id entry = option_or (get_key "id" entry) null

    abbrev result_of : Json → Scored Fields → Option Json
    result_of sid (given report) =
        some (obj (of_fields (("id", sid) ∷ ("report", obj report) ∷ [])))
    result_of sid (value_error text) =
        some (obj (of_fields (("id", sid) ∷ ("error", str text) ∷ [])))
    result_of sid uncaught = none

    -- One turn of the loop of `score_batch`; `none` is an exception that it does not catch
    unfoldable pub batch_entry : Json → Option Json
    batch_entry entry = result_of (entry_id entry) (score_payload entry)

    -- `score_batch`
    unfoldable pub score_batch : List Json → Option Fields
    score_batch servers = do
      results ← traverse batch_entry servers
      some (
          of_fields (
            ("results", arr (of_items results))
            ∷ ("count", nat (length results))
            ∷ ("rubric_version", str current_rubric)
            ∷ []))
