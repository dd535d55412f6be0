-- ===== src/Engines/Cost/Sampling.antt =====
-- src/mcp_quality/engines/cost.py: `_sample_responses`, against a server with its own state.
use mcp_probe.Base.{
  ◌>>=◌, String, List, ℕ, Bool, Option, All, show_nat, option_or, some, ◌∷◌, ◌≡◌, if◌then◌else◌,
  ltb, true, [], ◌<>◌, false, ◌++◌, none, Bool-cases, inl, inr, arith,
}
use mcp_probe.Base.Dict.{Dict, insert}
use mcp_probe.Base.Json.{Json, bool, nat}
use mcp_probe.Models.{Finding, low, medium, ToolDef}
use mcp_probe.Contract.Results.{ToolResult, Answer, raised, answered}
use mcp_probe.Contract.Engine.Writes.{recording, All-snoc, is_callable, All-callable}
use mcp_probe.Contract.Loop.{is_skipped}
use mcp_probe.Engines.WriteVerb.{is_write}
use mcp_probe.Legibility.Lints.{properties_of, is_boundable}
use mcp_probe.Engines.Tokens.{TokenCounter}
use mcp_probe.Engines.Cost.{cost_finding}

-- The token weights of the answers, and the findings
pub record Sampled : Type 0 where
  pub tokens : Dict ℕ
  pub findings : List Finding

-- The finding of an answer above 1,000 tokens
unfoldable pub response_finding : String → ℕ → Bool → Finding
response_finding name tokens boundable =
    let size = show_nat tokens in
    if boundable
    then cost_finding "$5-response-bloat" low (some name)
        ("tool '" <> name <> "' returns ~" <> size <> " tokens per call — large, "
          <> "though the caller can bound it via pagination")
        "lower the default page size, or let the caller select fields"
        (("response_tokens", nat tokens) ∷ ("boundable", bool true) ∷ [])
    else cost_finding "$7-no-pagination" medium (some name)
        ("tool '" <> name <> "' returns ~" <> size <> " tokens per call and has no "
          <> "pagination param — an unbounded response tax the caller can't cap")
        ("add a limit/cursor param; projected saving up to ~" <> size <> " tokens")
        (("response_tokens", nat tokens) ∷ ("boundable", bool false) ∷ [])

-- `result.structured if result.structured is not None else result.content`
abbrev payload_of : ToolResult → Json
payload_of r = option_or r.structured r.content

module _ (counter : TokenCounter) (dumps : Json → String) where
  abbrev weigh : ToolDef → ℕ → Sampled → Option Sampled
  weigh t tokens out =
      let weights = insert t.name tokens out.tokens in
      if ltb 1000 tokens
      then (properties_of t.input_schema >>= λ props. some (record {
        tokens = weights;
        findings = out.findings ++ response_finding t.name tokens (is_boundable props) ∷ [];
      }))
      else some (record out { tokens = weights })

  -- What an answer adds; one that raised is passed over
  unfoldable pub judge_response : ToolDef → Answer → Sampled → Option Sampled
  judge_response t (raised exc) out = some out
  judge_response t (answered result) out = weigh t (counter.count (dumps (payload_of result))) out

  module _ {S : Type 0} (call : String → Json → S → Answer × S)
      (synthesize_args : Json → Json) where
    abbrev sample_one : ToolDef → Sampled → S → Option Sampled × S
    sample_one t out s =
        let answer = call t.name (synthesize_args t.input_schema) s in
        (judge_response t answer.0 out, answer.1)

    -- The loop of `_sample_responses`; a schema that cannot be read ends it
    unfoldable pub sample_responses : List ToolDef → Option Sampled × S → Option Sampled × S
    sample_responses [] state = state
    sample_responses (t ∷ ts) (none, s) = (none, s)
    sample_responses (t ∷ ts) (some out, s) =
        let next = sample_responses ts (sample_one t out s) in
        let skipped = sample_responses ts (some out, s) in if is_write t then skipped else next

  module _ (answers : String → Json → List String → Answer) (synthesize_args : Json → Json)
      (P : String → Type 0) where
    sample_responses-log :
        (ts : List ToolDef) (out : Option Sampled) (log : List String)
        → All (λ (t : ToolDef). is_skipped false t ≡ false → P t.name) ts
        → All P log
        → All P (sample_responses (recording answers) synthesize_args ts (out, log)).1
    unfolding sample_responses is_skipped
    sample_responses-log [] out log named h = h
    sample_responses-log (t ∷ ts) none log named h = h
    sample_responses-log (t ∷ ts) (some out) log named h = elim (Bool-cases (is_write t)) [
      | inl write ↦ rw write (sample_responses-log ts (some out) log named.1 h)
      | inr reads ↦ rw reads (
          sample_responses-log ts _ (log ++ t.name ∷ []) named.1
            (All-snoc P log t.name h (named.0 (ground arith))))
    ]

  -- Whatever the server answers, each tool whose answer is sampled has the name of a tool that is
  -- no write.
  pub sample_responses-calls :
      (answers : String → Json → List String → Answer) (synthesize_args : Json → Json)
      (tools : List ToolDef) (out : Sampled)
      → All
          (λ (name : String). is_callable false tools name ≡ true)
          (sample_responses (recording answers) synthesize_args tools (some out, [])).1
  sample_responses-calls answers synthesize_args tools out =
      sample_responses-log answers synthesize_args (λ name. is_callable false tools name ≡ true)
        tools (some out) [] (All-callable false [] tools) tt
