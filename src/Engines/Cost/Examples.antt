-- ===== src/Engines/Cost/Examples.antt =====
-- Examples of the cost engine.
use mcp_probe.Base.{String, List, All, true, some, none, false, arith, [], ◌∷◌, ◌≡◌}
use mcp_probe.Base.Ratio.{Ratio, Le, IsRatio, whole}
use mcp_probe.Base.Json.{Json, str}
use mcp_probe.Models.Samples.{search_tool}
use mcp_probe.Engines.Cost.{cost_score}
use mcp_probe.Engines.Cost.Monotone.{cost_score-antitone}
use mcp_probe.Engines.Cost.Sampling.{Sampled, sample_responses, sample_responses-calls}
use mcp_probe.Engines.Tokens.{TokenCounter}
use mcp_probe.Contract.Results.{Answer, answered}
use mcp_probe.Contract.Engine.Writes.{recording, is_callable}

-- A stand-in for a logarithm that is monotone.
abbrev log2 : Ratio → Ratio
log2 r = r

log2_mono : (a b : Ratio) → IsRatio a → IsRatio b → Le (whole 1) a → Le a b → Le (log2 a) (log2 b)
log2_mono a b p q from_one h = h

cost_score-antitone_example :
    Le (cost_score log2 9000) (cost_score log2 4000) × Le (cost_score log2 4000) (whole 100)
cost_score-antitone_example = cost_score-antitone log2 log2_mono 4000 9000 (omega arith)

abbrev nothing_sampled : Sampled
nothing_sampled = record { tokens = []; findings = [] }

abbrev counter : TokenCounter
counter = record { name = "fixed"; count = λ text. 1200 }

abbrev small_answer : String → Json → List String → Answer
small_answer name args log =
    answered (record { content = str "found"; structured = none; is_error = false })

sample_responses-calls_example :
    All
      (λ (name : String). is_callable false (search_tool ∷ []) name ≡ true)
      (sample_responses counter
        (λ v. "")
        (recording small_answer)
        (λ v. v)
        (search_tool ∷ [])
        (some nothing_sampled, [])).1
sample_responses-calls_example =
    sample_responses-calls counter (λ v. "") small_answer (λ v. v) (search_tool ∷ [])
      nothing_sampled
