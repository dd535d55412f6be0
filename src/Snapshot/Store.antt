-- ===== src/Snapshot/Store.antt =====
-- src/mcp_quality/snapshot/store.py: building a baseline, and the diff against one.
pub mod Rounding
use mcp_probe.Base.{
  String, Option, some, Bool, List, ◌&&◌, not, true, ◌||◌, if◌then◌else◌, ◌==◌, is_empty, map,
  str_eq, false, str_empty, any, text_or_empty, none, [], filter, flat_map, filter_map, ◌∷◌,
}
use mcp_probe.Base.Dict
use mcp_probe.Base.Dict.{Dict, keys, values}
use mcp_probe.Base.Ratio
use mcp_probe.Base.Ratio.{Ratio, Signed, ratio}
use mcp_probe.Base.Json.{Json}
use mcp_probe.Models.{high, critical, Finding, ToolDef, ServerSurface, FamilyScore}
use mcp_probe.Snapshot.Fingerprint.{
  Fingerprint, StoredPrint, CapabilityChange, tool_fingerprint, capability_changes, only_in,
  in_both,
}

-- `RUBRIC_VERSION`
abbrev pub current_rubric : String
current_rubric = "2026.08.1"

-- The keys of a loaded snapshot that the diff reads.
pub record Baseline : Type 0 where
  pub rubric_version : Option String
  pub surface_hash : Option String
  pub tools : Dict StoredPrint
  pub family_scores : Dict (Option Ratio)

-- A fingerprint as it is written: with every key.
unfoldable pub stored : Fingerprint → StoredPrint
stored p = record {
  description_hash = some p.description_hash;
  schema_hash = some p.schema_hash;
  read_only = some p.read_only;
  destructive = some p.destructive;
  required = some p.required;
  params = some p.params;
}

abbrev pub measured_scores : Dict FamilyScore → Dict (Option Ratio)
measured_scores [] = []
measured_scores ((name, fam) ∷ fs) =
    let rest = measured_scores fs in if fam.measured then (name, fam.score) ∷ rest else rest

pub record SnapshotDiff : Type 0 where
  pub baseline_hash : String
  pub added_tools : List String
  pub removed_tools : List String
  pub changed_tools : List String
  pub capability_changes : List CapabilityChange
  pub broken_contracts : List String
  pub score_delta : Dict Signed
  pub rubric_mismatch : Bool

-- `d < 0`
abbrev pub is_negative : Signed → Bool
is_negative d = d.negative && not (d.size.num == 0)

-- `SnapshotDiff.has_regression`
unfoldable pub has_regression : SnapshotDiff → Bool
has_regression d =
    not (is_empty d.broken_contracts)
    || not (is_empty d.removed_tools)
    || not (is_empty d.capability_changes)
    || any is_negative (values d.score_delta)

-- The double nearest to 0.05.
abbrev pub noise : Ratio
noise = ratio 3602879701896397 72057594037927936

-- `old_fp.get(...) != new_fp[...]`
abbrev hash_differs : Option String → String → Bool
hash_differs none new = true
hash_differs (some old) new = not (str_eq old new)

unfoldable pub content_changed : StoredPrint → Fingerprint → Bool
content_changed old new =
    hash_differs old.description_hash new.description_hash
    || hash_differs old.schema_hash new.schema_hash

-- A tool of both sides with its two fingerprints.
abbrev both_prints :
    Dict StoredPrint → Dict Fingerprint → String → Option (StoredPrint × Fingerprint)
both_prints old new name = elim (Dict.get name old) [
  | none ↦ none
  | some o ↦ elim (Dict.get name new) [ none ↦ none | some n ↦ some (o, n) ]
]

unfoldable pub is_changed : Dict StoredPrint → Dict Fingerprint → String → Bool
unfolding content_changed
is_changed old new name = elim (both_prints old new name) [
  | none ↦ false
  | some (o, n) ↦ content_changed o n
]

unfoldable pub drift : Dict StoredPrint → Dict Fingerprint → String → List CapabilityChange
drift old new name = elim (both_prints old new name) [
  | none ↦ []
  | some (o, n) ↦ capability_changes name o n
]

-- One family's score delta, if both sides have a score and it is no float noise.
unfoldable pub family_delta : Dict (Option Ratio) → String × FamilyScore → Option (String × Signed)
family_delta old_scores (name, fam) =
    if fam.measured
    then elim fam.score [
      | none ↦ none
      | some now ↦ elim (Dict.get name old_scores) [
        | some (some before) ↦
            let delta = Ratio.diff now before in
            if Ratio.leb noise delta.size then some (name, delta) else none
        | _ ↦ none
      ]
    ]
    else none

abbrev is_severe : Finding → Bool
is_severe f = elim f.severity [ high ↦ true | critical ↦ true | _ ↦ false ]

-- `f.tool or f.code`
abbrev tool_or_code : Finding → String
tool_or_code f = if str_empty (text_or_empty f.tool) then f.code else text_or_empty f.tool

unfoldable pub broken_contracts : Dict FamilyScore → List String
broken_contracts families = elim (Dict.get "contract" families) [
  | none ↦ []
  | some contract ↦
      if contract.hard_gate_tripped
      then map tool_or_code (filter is_severe contract.findings)
      else []
]

module _ (hash : String → String) (dumps : Json → String) where
  abbrev pub fingerprints : List ToolDef → Dict Fingerprint
  fingerprints tools =
      Dict.of_pairs (map (λ (t : ToolDef). (t.name, tool_fingerprint hash dumps t)) tools)

  abbrev pub store_all : Dict Fingerprint → Dict StoredPrint
  store_all [] = []
  store_all ((k, p) ∷ ps) = (k, stored p) ∷ store_all ps

  -- `build_snapshot`
  unfoldable pub build_snapshot : ServerSurface → Dict FamilyScore → Baseline
  build_snapshot surface families = record {
    rubric_version = some current_rubric;
    surface_hash = some surface.surface_hash;
    tools = store_all (fingerprints surface.tools);
    family_scores = measured_scores families;
  }

  -- `diff_against_baseline`
  unfoldable pub diff_against_baseline : Baseline → ServerSurface → Dict FamilyScore → SnapshotDiff
  diff_against_baseline baseline surface families =
      let old = baseline.tools in
      let new = fingerprints surface.tools in
      let common = in_both (keys old) (keys new) in
      let mismatch = not (str_eq (text_or_empty baseline.rubric_version) current_rubric) in
      record {
        baseline_hash = text_or_empty baseline.surface_hash;
        added_tools = only_in (keys new) (keys old);
        removed_tools = only_in (keys old) (keys new);
        changed_tools = filter (is_changed old new) common;
        capability_changes = flat_map (drift old new) common;
        broken_contracts = broken_contracts families;
        score_delta =
            if mismatch then [] else filter_map (family_delta baseline.family_scores) families;
        rubric_mismatch = mismatch;
      }

-- The regression block of a report: what `SnapshotDiff.to_dict` writes, its scores rounded.
pub record Regression : Type 0 where
  pub baseline : String
  pub changed_tools : List String
  pub broken_contracts : List String
  pub score_delta : Dict Signed
  pub added_tools : List String
  pub removed_tools : List String
  pub capability_changes : List CapabilityChange
  pub rubric_mismatch : Bool

-- `round(v, 1)`
abbrev round_delta : Signed → Signed
round_delta d = record d { size = Ratio.round 10 d.size }

abbrev pub round_deltas : Dict Signed → Dict Signed
round_deltas [] = []
round_deltas ((k, d) ∷ ds) = (k, round_delta d) ∷ round_deltas ds

-- `SnapshotDiff.to_dict`; a list that the program leaves out when empty is empty here
unfoldable pub diff_to_dict : SnapshotDiff → Regression
diff_to_dict d = record {
  baseline = d.baseline_hash;
  changed_tools = d.changed_tools;
  broken_contracts = d.broken_contracts;
  score_delta = round_deltas d.score_delta;
  added_tools = d.added_tools;
  removed_tools = d.removed_tools;
  capability_changes = d.capability_changes;
  rubric_mismatch = d.rubric_mismatch;
}
