-- ===== src/Spec/Surface/Writes.antt =====
-- src/mcp_quality/engines/spec_surface.py: which tools the family drives.
use mcp_probe.Base.{
  String, List, Bool, All, ◌≡◌, Option, ◌++◌, false, ◌∷◌, Bool-cases, true, [], inl, is_empty, some,
  none, inr, subst, sym, refl,
}
use mcp_probe.Base.Json.{Json, Fields}
use mcp_probe.Base.Regex.{Wide}
use mcp_probe.Models.{ServerSurface, ToolDef}
use mcp_probe.Contract.Errors.{Writers}
use mcp_probe.Contract.Loop.{is_skipped}
use mcp_probe.Contract.Engine.Writes.{All-snoc, All-callable, is_callable}
use mcp_probe.Spec.Client.{Client}
use mcp_probe.Spec.Drive.{
  uris_of, safe_tools, drive, drive_tool, read_all, grade_resources, drive_tasks, cancel_first,
}
use mcp_probe.Spec.Surface.{grade_declared, spec_run_live}

-- A server that remembers the names of the tools it was called with or drove as a task, whatever
-- else it does.
abbrev pub remembering : {S : Type 0} → Client S → Client (S × List String)
remembering client = record {
  call_tool = λ name args state.
      let (answer, later) = client.call_tool name args state.0 in
      (answer, (later, state.1 ++ name ∷ []));
  read_resource =
      λ uri state. let (r, later) = client.read_resource uri state.0 in (r, (later, state.1));
  drive_task = λ name args cancel state.
      let (obs, later) = client.drive_task name args cancel state.0 in
      (obs, (later, state.1 ++ name ∷ []));
  capture = λ state. client.capture state.0;
}

module _ {S : Type 0} (client : Client S) (synthesize_args : Json → Json) (allow_writes : Bool)
    (P : String → Type 0) where
  -- Each tool of the list that is not skipped has the property.
  abbrev Named : List ToolDef → Type 0
  Named ts = All (λ (t : ToolDef). is_skipped allow_writes t ≡ false → P t.name) ts

  drive_tool-log :
      (t : ToolDef) (state : S × List String)
      → (is_skipped allow_writes t ≡ false → P t.name)
      → All P state.1
      → All P (drive_tool (remembering client) synthesize_args allow_writes t state).1
  unfolding drive_tool
  drive_tool-log t state named h = elim (Bool-cases (is_skipped allow_writes t)) [
    | inl skipped ↦ rw skipped h
    | inr called ↦ rw called (All-snoc P state.1 t.name h (named called))
  ]

  drive-log :
      (ts : List ToolDef) (state : S × List String)
      → Named ts
      → All P state.1
      → All P (drive (remembering client) synthesize_args allow_writes ts state).1
  unfolding drive
  drive-log [] state named h = h
  drive-log (t ∷ ts) state named h = drive-log ts _ named.1 (drive_tool-log t state named.0 h)

  read_all-log :
      (us : List String) (state : S × List String)
      → (read_all (remembering client) us state).1.1 ≡ state.1
  unfolding read_all
  read_all-log [] state = refl
  read_all-log (u ∷ us) state = read_all-log us _

  drive_tasks-log :
      (ts : List ToolDef) (state : S × List String)
      → All (λ (t : ToolDef). P t.name) ts
      → All P state.1
      → All P (drive_tasks (remembering client) synthesize_args ts state).1.1
  unfolding drive_tasks
  drive_tasks-log [] state named h = h
  drive_tasks-log (t ∷ ts) state named h =
      drive_tasks-log ts _ named.1 (All-snoc P state.1 t.name h named.0)

  cancel_first-log :
      (ts : List ToolDef) (state : S × List String)
      → All (λ (t : ToolDef). P t.name) ts
      → All P state.1
      → All P (cancel_first (remembering client) synthesize_args ts state).1.1
  unfolding cancel_first
  cancel_first-log [] state named h = h
  cancel_first-log (t ∷ ts) state named h = All-snoc P state.1 t.name h named.0

  safe_tools-Named :
      (ts : List ToolDef) → Named ts → All (λ (t : ToolDef). P t.name) (safe_tools allow_writes ts)
  safe_tools-Named [] named = tt
  safe_tools-Named (t ∷ ts) named = elim (Bool-cases (is_skipped allow_writes t)) [
    | inl skipped ↦ rw skipped (safe_tools-Named ts named.1)
    | inr called ↦ rw called (named.0 called, safe_tools-Named ts named.1)
  ]

  grade_resources-log :
      (surface : ServerSurface) (state : S × List String)
      → All P state.1
      → All P (grade_resources (remembering client) surface state).1.1
  unfolding grade_resources
  grade_resources-log surface state h = elim (Bool-cases (is_empty (uris_of surface))) [
    | inl none_there ↦ rw none_there h
    | inr some_there ↦
        rw some_there
          (subst (λ (log : List String). All P log) (sym (read_all-log (uris_of surface) state)) h)
  ]

  grade_declared-log :
      (wide : Wide) (writers : Writers) (ts : List ToolDef) (caps : Option Fields)
      (state : S × List String)
      → Named ts
      → All P state.1
      → All P
          (grade_declared wide writers
            (remembering client)
            synthesize_args
            allow_writes
            ts
            caps
            state).1.1
  unfolding grade_declared
  grade_declared-log wide writers ts none state named h = h
  grade_declared-log wide writers ts (some caps) state named h =
      let safe = safe_tools-Named ts named in
      cancel_first-log (safe_tools allow_writes ts) _ safe
        (drive_tasks-log (safe_tools allow_writes ts) state safe h)

-- Whatever the server does, each tool that the family calls or drives as a task has the name of a
-- tool that is not skipped: with writes not allowed, a name of which some tool is no write.
pub spec_run_live-calls :
    {S : Type 0} (client : Client S) (synthesize_args : Json → Json) (allow_writes : Bool)
    (wide : Wide) (writers : Writers) (surface : ServerSurface) (s : S)
    → All
        (λ (name : String). is_callable allow_writes surface.tools name ≡ true)
        (spec_run_live wide writers
          (remembering client)
          synthesize_args
          allow_writes
          surface
          (s, [])).1.1
unfolding spec_run_live
spec_run_live-calls client synthesize_args allow_writes wide writers surface s =
    let named = All-callable allow_writes [] surface.tools in
    let P = λ (name : String). is_callable allow_writes surface.tools name ≡ true in
    grade_declared-log client synthesize_args allow_writes P wide writers surface.tools _ _ named (
      grade_resources-log client synthesize_args allow_writes P surface _
        (drive-log client synthesize_args allow_writes P surface.tools (s, []) named tt))
