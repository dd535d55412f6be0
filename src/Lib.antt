-- ===== src/Lib.antt =====
-- mcp-quality probes a Model Context Protocol server and grades its quality. Engines score one
-- family of checks each (contract, legibility, cost, performance, security, safety), the scorer
-- aggregates the families, a committed baseline shows drift, and gates give the exit code.
--
-- The parts and their files (paths from the repository's root):
--   Models     src/mcp_quality/models.py: tools and surfaces, severities, findings, family scores.
--   Scoring    src/mcp_quality/scoring: Scorer.score with its hard gate (Scorer), the letter bands
--              (Grade), the reliability figures (Reliability).
--   Report     src/mcp_quality/report/rollup.py: quality_verdict (Rollup); history.py: compute_delta
--              (History); json_emitter.py and Report.provenance_hash (Emitter); badge.py (Badge).
--   Registry   src/mcp_quality/registry.py: score_payload, score_batch, freshness, and the routes
--              (Routes).
--   Handoff    src/mcp_quality/handoff.py: build_stampede_seed_dict.
--   Fix        src/mcp_quality/fix.py: _locate and apply_rewrites.
--   Snapshot   src/mcp_quality/snapshot/store.py: fingerprints and capability changes
--              (Fingerprint), build_snapshot, diff_against_baseline, SnapshotDiff (Store).
--   Perf       src/mcp_quality/perf: percentile, detect_leak, the curve and aggregate_results
--              (Load), run_load and the two fleets (Drive), what a worker sends back (Wire).
--   Spec       src/mcp_quality/connect/capture.py (Capture) and client.py (Client),
--              src/mcp_quality/engines/tasks_checks.py (Tasks) and spec_surface.py: the grading of
--              messages (Messages), what is asked of the server (Drive), the engine (Surface).
--   Engines    src/mcp_quality/engines/base.py, safety.py, performance.py, cost.py (Cost), tokens.py
--              (Tokens) and src/mcp_quality/contract/stateless.py.
--   Security   src/mcp_quality/security: adapters.py (Dedup, Issues, Scanners), authz.py (Authz),
--              path_traversal.py (Paths), patterns.py (Patterns), and engines/security.py (Engine).
--   Config     src/mcp_quality/config.py: the fields of ProbeConfig, _coerce, _from_env, _from_file,
--              load_config.
--   Cli        src/mcp_quality/cli.py: _families_from_args and _config_from_args.
--   Connect    src/mcp_quality/connect/discover.py (Discover) and transport.py: _list_all, _discover
--              (Transport); the surface's hash of models.py (Hash).
--   Contract   src/mcp_quality/contract/schema.py (Schema; synthesize_args in Shapes, Synthesis),
--              errors.py (Errors), silent_failure.py (Silent), client_compat.py (Compat), and
--              engines/contract.py: the probes of a tool (Probe), the checks without a server
--              (Static), the live loop (Loop) and ContractEngine.run (Engine).
--   Legibility src/mcp_quality/legibility: lints.py (Lints), similarity.py (Similarity), _match_name
--              and the prompts of model.py (Model), consensus.py (Consensus); cache.py and the
--              parts of engines/legibility.py that ask a model (Probe, Cache), its findings, score
--              and metrics (Engine) and LegibilityEngine.run (Run).
--   Pipeline   src/mcp_quality/pipeline.py: _run_engines (Engines), _run_reliability_overlay
--              (Overlay), _fold_readiness (Readiness), _decide_exit (Gates), and run_probe, which
--              composes them (Run).
--   Base       Python's dict (insertion order kept), JSON values, sorting, texts as code points,
--              a backtracking matcher for the patterns of `re` that the program uses, and exact
--              fractions.
--
-- How the code is modelled:
--   A float is an exact non-negative fraction (Ratio); the rounding of float arithmetic is not
--   modelled, that of `round` is. A difference that may be negative is a Signed. Where the code
--   subtracts and clamps at 0, the subtraction stops at 0.
--   A dict is a list of pairs in insertion order. A set of names is a list without repeats.
--   An exception is a value: none for a ValueError or KeyError, `raised` for an engine or a call.
--   Calls to a server are a parameter: for the contract engine a function on a state of the
--   server's own, for the load driver what each call of each stage meets. The stages of a load run
--   are taken in order and the calls of a stage in the order of their results.
--   SHA-256, the readers and writers of JSON and TOML, Python's int, float and repr, math.log2, the
--   tokenizers, the package jsonschema, the Unicode tables of `re` and of lower(), and what an
--   adapter or a launched worker prints are parameters. So are the environment and the
--   configuration files, the answers of a language model, synthesize_args for the engines that
--   call a server (a function there, though on some schemas it raises), and for the pipeline each
--   engine's outcome at a seed; for the registry, which scores many surfaces, it is a function of
--   the surface. A language model, like a server, is a function on a state of its
--   own, so that an unchanged state says that it was not asked.
--   In a discovered payload a value of a type that the program's annotations exclude is taken as an
--   exception, though the program would carry some such values on.
--   Of a schema whose `required` is no list of texts, a fingerprint keeps the texts; the program
--   keeps other items too, or raises where it cannot sort them.
--   A snapshot entry without a score, which the program writes for a measured family that has none,
--   gives no delta here; the program raises there. No engine makes such a family.
--   Loops are structural recursion on the list or the count that they run over. Fuel has show_nat,
--   one more than the number, which halts as each round divides it by ten; the repeats of a
--   pattern, as many as code points are left, as each round takes one; and the loop over the pages
--   of a listing, where the server decides how many there are: a fuel that is spent is an outcome of
--   its own there, and a bound on the server's pages is enough fuel.
--
-- Not modelled: network and file access, the parsing of arguments and the commands that print,
-- rendering on a terminal, tracing and timing, the starting of scanners and worker processes, the
-- parsing of web requests, history files, the leaderboard script, and the providers of language
-- models.
mod Base
pub mod Models
pub mod Scoring
pub mod Report
pub mod Snapshot
pub mod Spec
pub mod Perf
pub mod Engines
pub mod Config
pub mod Connect
pub mod Contract
pub mod Cli
pub mod Registry
pub mod Handoff
pub mod Fix
pub mod Legibility
pub mod Security
pub mod Pipeline
