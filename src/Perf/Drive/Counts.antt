-- ===== src/Perf/Drive/Counts.antt =====
-- src/mcp_quality/perf/load.py: the counts of a load run.
use mathlib.Core.List.{append-nil, append_assoc}
use mcp_probe.Base.{
  ℕ, ◌≤◌, List, Option, length, ◌≡◌, ◌∷◌, Bool, suc, arith, ◌+◌, [], none, some, zero, ◌∙◌, ap,
  ◌++◌, sym, refl,
}
use mcp_probe.Base.Ratio.{Ratio}
use mcp_probe.Perf.Load.{ConcurrencyCurve, stages}
use mcp_probe.Perf.Drive.{
  Attempt, LoadState, Server, take_outcome, take_outcomes, close_stage, gather, run_stage,
  run_stages, idle, run_load,
}

-- Errors never outnumber calls.
abbrev IsCounted : LoadState → Type 0
IsCounted s = s.result.errors ≤ s.result.total

-- The calls of the stages of a curve.
abbrev pub calls_of : List ℕ → ℕ
calls_of [] = 0
calls_of (level ∷ levels) = level + calls_of levels

take_outcome-counts :
    (o : Option (Ratio × Bool)) (s : LoadState)
    → IsCounted s
    → ((take_outcome o s).result.total ≡ s.result.total + 1)
      × IsCounted (take_outcome o s)
      × ((take_outcome o s).result.connection_samples ≡ s.result.connection_samples)
unfolding take_outcome
take_outcome-counts none s h = ground arith
take_outcome-counts (some (latency, is_error)) s h = ground arith

take_outcomes-counts :
    (os : List (Option (Ratio × Bool))) (s : LoadState)
    → IsCounted s
    → ((take_outcomes os s).result.total ≡ s.result.total + length os)
      × IsCounted (take_outcomes os s)
      × ((take_outcomes os s).result.connection_samples ≡ s.result.connection_samples)
unfolding take_outcomes
take_outcomes-counts [] s h = ground arith
take_outcomes-counts (o ∷ os) s h =
    let one = take_outcome-counts o s h in
    let more = take_outcomes-counts os (take_outcome o s) one.1 in
    (omega (arith, one.0, more.0), more.1, more.2 ∙ one.2)

length-gather : (calls : ℕ → Attempt) (i n : ℕ) → length (gather calls i n) ≡ n
unfolding gather
length-gather calls i zero = refl
length-gather calls i (suc n) = ap suc (length-gather calls (suc i) n)

module _ (server : Server) (threshold : Ratio) where
  run_stage-counts :
      (i level : ℕ) (s : LoadState)
      → IsCounted s
      → ((run_stage server threshold i level s).result.total ≡ s.result.total + level)
        × IsCounted (run_stage server threshold i level s)
        × ((run_stage server threshold i level s).result.connection_samples
            ≡ s.result.connection_samples ++ level ∷ [])
  unfolding run_stage close_stage
  run_stage-counts i level s h =
      let outcomes = gather (server i) 0 level in
      let taken = take_outcomes-counts outcomes (record s { stage_errors = 0 }) h in
      (
        omega (arith, taken.0, length-gather (server i) 0 level),
        taken.1,
        ap (λ (xs : List ℕ). xs ++ level ∷ []) taken.2,
      )

  run_stages-counts :
      (i : ℕ) (levels : List ℕ) (s : LoadState)
      → IsCounted s
      → ((run_stages server threshold i levels s).result.total ≡ s.result.total + calls_of levels)
        × IsCounted (run_stages server threshold i levels s)
        × ((run_stages server threshold i levels s).result.connection_samples
            ≡ s.result.connection_samples ++ levels)
  unfolding run_stages
  run_stages-counts i [] s h = (omega arith, h, sym (append-nil s.result.connection_samples))
  run_stages-counts i (level ∷ levels) s h =
      let one = run_stage-counts i level s h in
      let more = run_stages-counts (suc i) levels (run_stage server threshold i level s) one.1 in
      (
        omega (arith, one.0, more.0),
        more.1,
        more.2
            ∙ ap (λ (xs : List ℕ). xs ++ levels) one.2
            ∙ append_assoc s.result.connection_samples (level ∷ []) levels,
      )

  -- A load run makes as many calls as the levels of its curve add up to, counts no more errors than
  -- calls, and has the levels themselves as its connection samples, whatever the server does.
  pub run_load-counts :
      (curve : ConcurrencyCurve)
      → ((run_load server threshold curve).total ≡ calls_of (stages curve))
        × ((run_load server threshold curve).errors ≤ (run_load server threshold curve).total)
        × ((run_load server threshold curve).connection_samples ≡ stages curve)
  unfolding run_load
  run_load-counts curve =
      let done = run_stages-counts 0 (stages curve) (idle server threshold) (omega arith) in
      (omega (arith, done.0), done.1, done.2)
