-- ===== src/Perf/Examples.antt =====
-- Examples of the load figures.
use mcp_probe.Perf.Wire.Lines.{parse_worker_output-load_to_dict}
use mcp_probe.Perf.Wire.{load_to_dict, filled, parse_worker_output}
use mcp_probe.Base.Json.{obj}
use mcp_probe.Base.Regex.{Wide, strip_blank, is_blank}
use mcp_probe.Base.{
  ◌++◌, codes, [], ◌∷◌, some, ℕ, List, ◌≡◌, if◌then◌else◌, ◌%◌, ◌≤◌, false, ◌==◌, true, refl,
}
use mcp_probe.Base.Ratio.{Ratio, ratio, whole}
use mcp_probe.Perf.Load.{LoadResult, no_load, engine_curve, stages, detect_leak}
use mcp_probe.Perf.Drive.{Server, answered, cancelled, run_load}
use mcp_probe.Perf.Drive.Counts.{calls_of, run_load-counts}
use mcp_probe.Perf.Drive.Leak.{run_load-no_leak}

abbrev samples : List Ratio
samples = whole 30 ∷ whole 10 ∷ ratio 25 2 ∷ []

abbrev worker : ℕ → LoadResult
worker errors = record no_load { errors = errors; total = 10; connection_samples = 3 ∷ 5 ∷ [] }

abbrev fleet : List LoadResult
fleet = worker 2 ∷ worker 3 ∷ []

-- Every third call is refused.
abbrev server : Server
server stage call = if call % 3 == 2 then cancelled else answered (whole call) false

run_load-counts_example :
    ((run_load server (ratio 1 2) (engine_curve 8)).total ≡ calls_of (stages (engine_curve 8)))
    × ((run_load server (ratio 1 2) (engine_curve 8)).errors
        ≤ (run_load server (ratio 1 2) (engine_curve 8)).total)
    × ((run_load server (ratio 1 2) (engine_curve 8)).connection_samples ≡ stages (engine_curve 8))
run_load-counts_example = run_load-counts server (ratio 1 2) (engine_curve 8)

run_load-no_leak_example :
    detect_leak (run_load server (ratio 1 2) (engine_curve 8)).connection_samples ≡ false
run_load-no_leak_example = run_load-no_leak server (ratio 1 2) 8

-- A rise that goes on is seen.
leak_seen : detect_leak (3 ∷ 5 ∷ 6 ∷ 9 ∷ []) ≡ true
unfolding detect_leak
leak_seen = refl

abbrev sent : LoadResult
sent = record no_load { latencies_ms = ratio 5 2 ∷ []; total = 1; connection_samples = 1 ∷ [] }

abbrev ascii : Wide
ascii = record { word = λ c. false; space = λ c. false; digit = λ c. false }

abbrev sent_line : List ℕ
sent_line = codes "{...}"

line_kept : filled ascii sent_line ≡ some sent_line
unfolding strip_blank is_blank
line_kept = refl

parse_worker_output-load_to_dict_example :
    parse_worker_output ascii
      (λ l. some (obj (load_to_dict sent)))
      (codes "starting" ++ 10 ∷ (sent_line ++ 10 ∷ []))
    ≡ some sent
parse_worker_output-load_to_dict_example =
    parse_worker_output-load_to_dict ascii sent_line refl line_kept
      (λ l. some (obj (load_to_dict sent))) sent (codes "starting") refl
