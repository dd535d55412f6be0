-- ===== src/Perf/Wire.antt =====
-- src/mcp_quality/perf/load.py and distributed.py: what a worker process sends to the coordinator.
-- A value of a type that `to_dict` never writes is an exception here; the launcher turns every
-- exception into None. The JSON reader and writer and the process are parameters.
pub mod Lines
use mcp_probe.Perf.Load.{LoadResult}
use mcp_probe.Base.Json.{
  nat, ratio_json, truthy?, float, items, int, of_items, arr, of_fields, bool, find_field, obj,
  Fields, Json,
}
use mcp_probe.Base.{
  ◌++◌, not, ◌||◌, map, ◌&&◌, ◌==◌, [], traverse, is_empty, ◌∷◌, leb, false, none, some,
  if◌then◌else◌, Option, List, Bool, ℕ, ◌>>=◌,
}
use mcp_probe.Base.Ratio.{Ratio, whole}
use mcp_probe.Base.Regex.{Wide, strip_blank}

abbrev counts_json : List ℕ → Json
counts_json ns = arr (of_items (map nat ns))

-- `LoadResult.to_dict`
unfoldable pub load_to_dict : LoadResult → Fields
load_to_dict r = of_fields (
    ("latencies_ms", arr (of_items (map ratio_json r.latencies_ms)))
    ∷ ("errors", nat r.errors)
    ∷ ("total", nat r.total)
    ∷ ("crashed", bool r.crashed)
    ∷ ("connection_samples", counts_json r.connection_samples)
    ∷ ("max_stable_concurrency", nat r.max_stable_concurrency)
    ∷ ("workers", nat r.workers)
    ∷ [])

-- `float(x)`
abbrev pub as_float : Json → Option Ratio
as_float (bool b) = some (whole (if b then 1 else 0))
as_float (int s n) = if s then none else some (whole n)
as_float (float x) = if x.negative then none else some x.size
as_float _ = none

-- `int(x)`
abbrev pub count_value : Json → Option ℕ
count_value (bool b) = some (if b then 1 else 0)
count_value (int s n) = if s then none else some n
count_value _ = none

-- `d.get(k, [])`, of a list
abbrev list_of : Option Json → Option (List Json)
list_of none = some []
list_of (some (arr xs)) = some (items xs)
list_of (some v) = none

-- `int(d.get(k, default))`
abbrev count_of : ℕ → Option Json → Option ℕ
count_of default none = some default
count_of default (some v) = count_value v

-- `LoadResult.from_dict`
unfoldable pub load_from_dict : Fields → Option LoadResult
load_from_dict d = do
  latency_items ← list_of (find_field "latencies_ms" d)
  latencies ← traverse as_float latency_items
  errors ← count_of 0 (find_field "errors" d)
  total ← count_of 0 (find_field "total" d)
  sample_items ← list_of (find_field "connection_samples" d)
  samples ← traverse count_value sample_items
  stable ← count_of 0 (find_field "max_stable_concurrency" d)
  workers ← count_of 1 (find_field "workers" d)
  some (record {
    latencies_ms = latencies;
    errors = errors;
    total = total;
    crashed = truthy? (find_field "crashed" d);
    connection_samples = samples;
    max_stable_concurrency = stable;
    workers = workers;
  })

-- The ends of lines of `str.splitlines`
abbrev pub is_break : ℕ → Bool
is_break c =
    (leb 10 c && leb c 13) || (leb 28 c && leb c 30) || (c == 133) || (c == 8232) || (c == 8233)

-- `text.splitlines()`, after the line's part `cur`, and after a carriage return where `cr` holds
unfoldable pub split_lines : Bool → List ℕ → List ℕ → List (List ℕ)
split_lines cr cur [] = if is_empty cur then [] else cur ∷ []
split_lines cr cur (c ∷ cs) =
    let joined = cr && (c == 10) in
    let ended = is_break c && not joined in
    let rest =
      split_lines (c == 13) (if is_break c then (if joined then cur else []) else cur ++ c ∷ [])
        cs in
    if ended then cur ∷ rest else rest

-- The last of two, where there is one
abbrev pub or_before : Option (List ℕ) → Option (List ℕ) → Option (List ℕ)
or_before (some l) first = some l
or_before none first = first

module _ (wide : Wide) where
  -- `ln if ln.strip()`
  abbrev pub filled : List ℕ → Option (List ℕ)
  filled line = if is_empty (strip_blank wide line) then none else some line

  -- `lines[-1]` of the lines that are not blank
  unfoldable pub last_line : List (List ℕ) → Option (List ℕ)
  last_line [] = none
  last_line (line ∷ rest) = or_before (last_line rest) (filled line)

  module _ (loads : List ℕ → Option Json) where
    abbrev loaded : Json → Option LoadResult
    loaded (obj d) = load_from_dict d
    loaded v = none

    -- `_parse_worker_output`
    unfoldable pub parse_worker_output : List ℕ → Option LoadResult
    parse_worker_output stdout = do
      line ← last_line (split_lines false [] stdout)
      value ← loads line
      loaded value

    -- `launcher`, where the process gives its return code and output, or an exception
    unfoldable pub launch : (ℕ → Json → Option (ℕ × List ℕ)) → Json → ℕ → Option LoadResult
    launch process job index = do
      (code, out) ← process index job
      if code == 0 then parse_worker_output out else none
