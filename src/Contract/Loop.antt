-- ===== src/Contract/Loop.antt =====
-- src/mcp_quality/engines/contract.py: the loop over the tools of a live server.
use mcp_probe.Base.{
  String, Bool, Option, none, some, List, ℕ, [], ◌+◌, if◌then◌else◌, ◌∷◌, not, ◌++◌, ◌&&◌, elem,
}
use mcp_probe.Base.Json.{Json}
use mcp_probe.Models.{Finding, ToolDef}
use mcp_probe.Engines.WriteVerb.{is_write}
use mcp_probe.Contract.Results.{Answer}
use mcp_probe.Contract.Probe.{Judges, Probed, ErrorPath, probe_tool, probe_error_path}

-- The counters of the live loop, and its findings.
pub record Live : Type 0 where
  pub invoked : ℕ
  pub conformance_breaks : ℕ
  pub nondeterministic : ℕ
  pub silent_failures : ℕ
  pub error_path_crashes : ℕ
  pub recovery_scores : List ℕ
  pub skipped_writes : List String
  pub findings : List Finding

abbrev pub no_probe : Live
no_probe = record {
  invoked = 0;
  conformance_breaks = 0;
  nondeterministic = 0;
  silent_failures = 0;
  error_path_crashes = 0;
  recovery_scores = [];
  skipped_writes = [];
  findings = [];
}

abbrev as_int : Bool → ℕ
as_int b = if b then 1 else 0

abbrev one_score : Option ℕ → List ℕ
one_score none = []
one_score (some n) = n ∷ []

-- What the two probes of a tool add.
unfoldable pub count_probe : Probed → ErrorPath → Live → Live
count_probe p e live = record live {
  invoked = live.invoked + 1;
  conformance_breaks = live.conformance_breaks + as_int p.broke;
  nondeterministic = live.nondeterministic + as_int p.nondet;
  silent_failures = live.silent_failures + as_int p.silent;
  error_path_crashes = live.error_path_crashes + as_int e.crashed;
  recovery_scores = live.recovery_scores ++ one_score e.affordance;
  findings = live.findings ++ (p.findings ++ e.findings);
}

-- The test that keeps a tool from being invoked as a write.
unfoldable pub is_skipped : Bool → ToolDef → Bool
is_skipped allow_writes t = is_write t && not allow_writes

module _ {S : Type 0} (call_tool : String → Json → S → Answer × S) (judges : Judges)
    (allow_writes : Bool) (invalid : List String) where
  unfoldable pub probe_both : ToolDef → Live × S → Live × S
  probe_both t (live, s) =
      let first = probe_tool call_tool judges t s in
      let second = probe_error_path call_tool judges t first.1 in
      (count_probe first.0 second.0 live, second.1)

  -- One turn of the live loop.
  unfoldable pub probe_one : ToolDef → Live × S → Live × S
  unfolding probe_both is_skipped
  probe_one t (live, s) =
      if elem t.name invalid
      then (live, s)
      else if is_skipped allow_writes t
      then (record live { skipped_writes = live.skipped_writes ++ t.name ∷ [] }, s)
      else probe_both t (live, s)

  unfoldable pub probe_all : List ToolDef → Live × S → Live × S
  unfolding probe_one
  probe_all [] state = state
  probe_all (t ∷ ts) state = probe_all ts (probe_one t state)
