-- ===== src/Contract/Engine.antt =====
-- src/mcp_quality/engines/contract.py: `ContractEngine.run`.
pub mod Gate
pub mod Writes
use mcp_probe.Base.{
  String, Bool, Option, none, some, List, ℕ, [], ◌+◌, true, if◌then◌else◌, ◌∷◌, not, ◌<>◌, ◌++◌,
  ◌*◌, length, is_empty, map, ◌-◌, min, ◌||◌, max, is_some, ltb, ◌==◌, show_nat, join,
}
use mcp_probe.Base.Ratio
use mcp_probe.Base.Ratio.{Ratio, ratio, whole}
use mcp_probe.Base.Sorting.{sort_texts}
use mcp_probe.Base.Json.{Json, null, bool, str, arr, obj, nat, of_fields, of_items}
use mcp_probe.Models.{FamilyScore, ToolDef, ServerSurface}
use mcp_probe.Scoring.Grade.{letter, grade_for_score}
use mcp_probe.Engines.Stateless.{Signals, Readiness, observed_bad, grade_stateless_conformance}
use mcp_probe.Contract.Schema.{SchemaIssue}
use mcp_probe.Contract.Results.{Answer}
use mcp_probe.Contract.Probe.{Judges}
use mcp_probe.Contract.Compat.{grade_client_compat}
use mcp_probe.Contract.Static.{
  ConnectRecord, framing_ok, check_handshake, schema_findings, schema_invalid,
}
use mcp_probe.Contract.Loop.{Live, no_probe, probe_all}

abbrev total_of : List ℕ → ℕ
total_of [] = 0
total_of (n ∷ ns) = n + total_of ns

-- `mean_affordance`
unfoldable pub mean_affordance : List ℕ → Option ℕ
mean_affordance [] = none
mean_affordance (n ∷ ns) = some (Ratio.round_units 1 (ratio (total_of (n ∷ ns)) (length (n ∷ ns))))

-- `min(15.0, (100 - mean) * 0.15)`; no affordance is above 100
unfoldable pub affordance_cost : Option ℕ → Ratio
affordance_cost none = whole 0
affordance_cost (some mean) = Ratio.min (whole 15) (ratio (15 * (100 - mean)) 100)

-- The share of tools that pass, of 100; a negative count is clamped.
unfoldable pub base_score : ℕ → ℕ → Live → Ratio
base_score tools invalid live =
    ratio
      (100
        * (tools - invalid - live.conformance_breaks - live.nondeterministic
            - live.error_path_crashes))
      (max 1 tools)

-- The hard gate of the engine.
unfoldable pub contract_gate : Option ConnectRecord → List String → Live → Bool
contract_gate rec invalid live =
    not (is_empty invalid)
    || (ltb 0 live.conformance_breaks || (ltb 0 live.error_path_crashes || not (framing_ok rec)))

-- The score before the gate, each penalty clamped at 0.
unfoldable pub open_score : ℕ → ℕ → Live → Bool → ℕ → Ratio
open_score tools invalid live unstable compat =
    let after_affordance =
      Ratio.monus (base_score tools invalid live)
        (affordance_cost (mean_affordance live.recovery_scores)) in
    let after_stateless = Ratio.monus after_affordance (whole (if unstable then 10 else 0)) in
    let after_silent = Ratio.monus after_stateless (whole (min 20 (10 * live.silent_failures))) in
    Ratio.monus after_silent (whole (min 6 (2 * compat)))

unfoldable pub contract_score : Bool → Ratio → Ratio
contract_score gate score = if gate then Ratio.min score (whole 65) else score

-- `rec.x if rec else ...` of the stateless signals
unfoldable pub stateless_inputs : Option ConnectRecord → ServerSurface → String × Signals
stateless_inputs none surface = (
  surface.protocol_version,
  record {
    discover_ok = none;
    tools_list_stable = none;
    meta_enforced = none;
    supported_versions = [];
  },
)
stateless_inputs (some rec) surface = (rec.protocol_version, rec.signals)

abbrev signal_json : Option Bool → Json
signal_json none = null
signal_json (some b) = bool b

abbrev text_json : Option String → Json
text_json none = null
text_json (some s) = str s

abbrev count_json : Option ℕ → Json
count_json none = null
count_json (some n) = nat n

-- `stateless_readiness`
unfoldable pub readiness_json : Readiness → Json
readiness_json r = obj (
    of_fields (
      ("protocol_version", text_json r.protocol_version)
      ∷ ("on_stateless_revision", bool r.stateless)
      ∷ ("server_discover", signal_json r.signals.discover_ok)
      ∷ ("tools_list_stable", signal_json r.signals.tools_list_stable)
      ∷ ("meta_enforced", signal_json r.signals.meta_enforced)
      ∷ ("supported_versions", arr (of_items (map str r.signals.supported_versions)))
      ∷ []))

-- `f"{n} ..."` where `n` is not 0
abbrev bit : ℕ → String → List String
bit n text = if n == 0 then [] else (show_nat n <> text) ∷ []

abbrev recovery_bit : Option ℕ → List String
recovery_bit none = []
recovery_bit (some mean) =
    if ltb mean 70 then ("error-recovery " <> (show_nat mean <> "/100")) ∷ [] else []

-- `summary`
unfoldable pub summary : ℕ → ℕ → ℕ → Live → String
summary tools invalid compat live =
    let bits =
      bit invalid " schema-invalid"
      ++ (bit live.conformance_breaks " contract break(s)"
          ++ (bit live.nondeterministic " nondeterministic"
              ++ (bit live.silent_failures " silent failure(s)"
                  ++ (bit compat " client-compat hazard(s)"
                      ++ (bit live.error_path_crashes " crash-on-bad-input"
                          ++ (recovery_bit (mean_affordance live.recovery_scores)
                              ++ bit (length live.skipped_writes) " write tools skipped")))))) in
    if is_empty bits then show_nat tools <> " tools conform" else join ", " bits

-- The client of a live run with its record; `none` is static mode.
pub record LiveServer : Type (1) where
  pub State : Type 0
  pub start : State
  pub call_tool : String → Json → State → Answer × State
  pub connect_record : Option ConnectRecord

module _ (check_schema : Json → List SchemaIssue) (judges : Judges) where
  unfoldable pub live_part : Bool → List ToolDef → Option LiveServer → Live
  live_part allow_writes tools none = no_probe
  live_part allow_writes tools (some server) =
      (probe_all server.call_tool judges allow_writes (schema_invalid check_schema tools) tools
        (no_probe, server.start)).0

  abbrev record_of : Option LiveServer → Option ConnectRecord
  record_of none = none
  record_of (some server) = server.connect_record

  -- `ContractEngine.run`
  unfoldable pub contract_run : Bool → ServerSurface → Option LiveServer → FamilyScore
  contract_run allow_writes surface server =
      let tools = surface.tools in
      let rec = record_of server in
      let (version, signals) = stateless_inputs rec surface in
      let stateless = grade_stateless_conformance version signals in
      let invalid = schema_invalid check_schema tools in
      let compat = grade_client_compat judges.wide judges.writers tools in
      let live = live_part allow_writes tools server in
      let gate = contract_gate rec invalid live in
      let score = contract_score gate (
        open_score (length tools) (length invalid) live (observed_bad signals.tools_list_stable)
          (length compat)) in
      record {
        family = "contract";
        score = some score;
        grade = letter (grade_for_score score);
        hard_gate_tripped = gate;
        findings =
            check_handshake rec
            ++ (stateless.0 ++ (schema_findings check_schema tools ++ (compat ++ live.findings)));
        metrics =
            ("tools", nat (length tools))
            ∷ ("invoked", nat live.invoked)
            ∷ ("schema_invalid", arr (of_items (map str (sort_texts invalid))))
            ∷ ("conformance_breaks", nat live.conformance_breaks)
            ∷ ("nondeterministic", nat live.nondeterministic)
            ∷ ("silent_failures", if is_some server then nat live.silent_failures else null)
            ∷ ("client_compat_hazards", nat (length compat))
            ∷ ("error_path_crashes", nat live.error_path_crashes)
            ∷ ("error_recovery_affordance", count_json (mean_affordance live.recovery_scores))
            ∷ ("skipped_writes", arr (of_items (map str live.skipped_writes)))
            ∷ ("invocation_measured", bool (is_some server))
            ∷ ("protocol_version", str surface.protocol_version)
            ∷ ("stateless_readiness", readiness_json stateless.1)
            ∷ ("summary", str (summary (length tools) (length invalid) (length compat) live))
            ∷ [];
        measured = true;
      }
