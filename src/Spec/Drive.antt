-- ===== src/Spec/Drive.antt =====
-- src/mcp_quality/engines/spec_surface.py: what the family asks of the server. Argument synthesis
-- is a parameter.
use mcp_probe.Base.{
  String, List, Option, [], Bool, ◌<>◌, if◌then◌else◌, ◌++◌, ◌∷◌, none, false, some, filter, true,
  not, length, str_empty, is_empty, map,
}
use mcp_probe.Base.Json.{Json, nat}
use mcp_probe.Models.{Finding, medium, ServerSurface, ToolDef, ResourceDef}
use mcp_probe.Spec.Client.{Client}
use mcp_probe.Contract.Loop.{is_skipped}
use mcp_probe.Spec.Capture.{ResourceResolution, TaskObservation}
use mcp_probe.Spec.Messages.{Graded, unmeasured, spec_finding}

-- `f"{x}"` of an optional text
abbrev shown : Option String → String
shown none = "None"
shown (some s) = s

abbrev unresolved_finding : ResourceResolution → Finding
unresolved_finding r =
    spec_finding "SS3-resource-unresolved" medium
      ("advertised resource does not resolve: " <> r.uri <> " (" <> shown r.error <> ")")
      "ensure every advertised resource / resource_link actually resolves" none

-- `obs is not None`
abbrev observed : Option TaskObservation → List TaskObservation
observed none = []
observed (some obs) = obs ∷ []

-- `uris`
abbrev pub uris_of : ServerSurface → List String
uris_of surface =
    filter (λ (u : String). not (str_empty u)) (map (λ (r : ResourceDef). r.uri) surface.resources)

-- `safe`
abbrev pub safe_tools : Bool → List ToolDef → List ToolDef
safe_tools allow_writes tools = filter (λ (t : ToolDef). not (is_skipped allow_writes t)) tools

module _ {S : Type 0} (client : Client S) where
  -- The reading of the resources
  unfoldable pub read_all : List String → S → List ResourceResolution × S
  read_all [] s = ([], s)
  read_all (u ∷ us) s =
      let (r, later) = client.read_resource u s in
      let (rest, last) = read_all us later in (r ∷ rest, last)

  -- `_grade_resources`
  unfoldable pub grade_resources : ServerSurface → S → Graded × S
  grade_resources surface s =
      let (results, later) = read_all (uris_of surface) s in
      let unresolved = filter (λ (r : ResourceResolution). not r.ok) results in
      if is_empty (uris_of surface) then (unmeasured, s) else (
        record {
          findings = map unresolved_finding unresolved;
          measured = true;
          metrics =
              ("resources_checked", nat (length (uris_of surface)))
              ∷ ("resources_unresolved", nat (length unresolved))
              ∷ [];
        },
        later,
      )

module _ {S : Type 0} (client : Client S) (synthesize_args : Json → Json) where
  -- One turn of `_drive`; an exception of the call is suppressed
  unfoldable pub drive_tool : Bool → ToolDef → S → S
  drive_tool allow_writes t s =
      if is_skipped allow_writes t
      then s
      else (client.call_tool t.name (synthesize_args t.input_schema) s).1

  -- `_drive`
  unfoldable pub drive : Bool → List ToolDef → S → S
  drive allow_writes [] s = s
  drive allow_writes (t ∷ ts) s = drive allow_writes ts (drive_tool allow_writes t s)

  abbrev pub drive_one : ToolDef → Bool → S → Option TaskObservation × S
  drive_one t cancel s = client.drive_task t.name (synthesize_args t.input_schema) cancel s

  -- Each task driven to its end
  unfoldable pub drive_tasks : List ToolDef → S → List TaskObservation × S
  drive_tasks [] s = ([], s)
  drive_tasks (t ∷ ts) s =
      let (obs, later) = drive_one t false s in
      let (rest, last) = drive_tasks ts later in (observed obs ++ rest, last)

  -- The one that is cancelled
  unfoldable pub cancel_first : List ToolDef → S → List TaskObservation × S
  cancel_first [] s = ([], s)
  cancel_first (t ∷ ts) s = let (obs, later) = drive_one t true s in (observed obs, later)
