-- ===== src/Perf/Wire/Lines.antt =====
-- src/mcp_quality/perf/distributed.py: what the coordinator reads back.
use mcp_probe.Base.Regex.{Wide}
use mcp_probe.Base.Json.{obj, Json, nat, ratio_json, of_items, items}
use mcp_probe.Base.Ratio.{Ratio}
use mcp_probe.Perf.Wire.{
  last_line, parse_worker_output, filled, as_float, count_value, is_break, load_to_dict,
  split_lines, load_from_dict,
}
use mathlib.Core.List.{append_assoc, append-nil}
use mcp_probe.Base.{
  true, not, ◌∙◌, ◌==◌, ◌&&◌, if◌then◌else◌, Option, arith, sym, ap, [], ◌∷◌, ◌++◌, map, is_empty,
  false, some, ◌≡◌, any, traverse, ℕ, Bool, List, refl,
}
use mcp_probe.Perf.Load.{LoadResult}

traverse-as_float :
    (xs : List Ratio) → traverse as_float (items (of_items (map ratio_json xs))) ≡ some xs
traverse-as_float [] = refl
traverse-as_float (x ∷ xs) = rw (traverse-as_float xs) refl

traverse-count_value :
    (ns : List ℕ) → traverse count_value (items (of_items (map nat ns))) ≡ some ns
traverse-count_value [] = refl
traverse-count_value (n ∷ ns) = rw (traverse-count_value ns) refl

-- A result that is written as a dictionary is read back the same.
pub load_from_dict-load_to_dict : (r : LoadResult) → load_from_dict (load_to_dict r) ≡ some r
unfolding load_from_dict load_to_dict
load_from_dict-load_to_dict r =
    rw (traverse-as_float r.latencies_ms, traverse-count_value r.connection_samples) refl

-- A line without an end of line in it is one line.
split_lines-line :
    (cur line : List ℕ)
    → any is_break line ≡ false
    → split_lines false cur (line ++ 10 ∷ []) ≡ (cur ++ line) ∷ []
unfolding split_lines
split_lines-line cur [] none_in = ap (λ l. l ∷ []) (sym (append-nil cur))
split_lines-line cur (c ∷ line) none_in =
    let whole_line : is_break c ≡ false = ground arith in
    let no_return : (c == 13) ≡ false = ground arith in
    rw (whole_line, no_return)
      (split_lines-line (cur ++ c ∷ []) line (ground arith)
        ∙ ap (λ l. l ∷ []) (append_assoc cur (c ∷ []) line))

module _ (wide : Wide) (line : List ℕ) (plain : any is_break line ≡ false)
    (kept : filled wide line ≡ some line) where
  last_line-after :
      (b : Bool) (cur : List ℕ) (rest : List (List ℕ))
      → last_line wide rest ≡ some line
      → last_line wide (if b then cur ∷ rest else rest) ≡ some line
  unfolding last_line
  last_line-after true cur rest h = rw h refl
  last_line-after false cur rest h = h

  last_line-one : last_line wide (split_lines false [] (line ++ 10 ∷ [])) ≡ some line
  unfolding last_line
  last_line-one = rw (split_lines-line [] line plain) kept

  -- Whatever was printed before, the last line is found; a part is empty after a carriage return.
  last_line-noise :
      (cr : Bool) (cur noise : List ℕ)
      → (cr && not (is_empty cur)) ≡ false
      → last_line wide (split_lines cr cur (noise ++ 10 ∷ (line ++ 10 ∷ []))) ≡ some line
  unfolding split_lines
  last_line-noise true [] [] h = last_line-one
  last_line-noise true (x ∷ cur) [] h = absurd (cc)
  last_line-noise false cur [] h = last_line-after true cur _ last_line-one
  last_line-noise cr cur (c ∷ noise) h =
      last_line-after (is_break c && not (cr && (c == 10))) cur _ (
        last_line-noise (c == 13)
          (if is_break c then (if cr && (c == 10) then cur else []) else cur ++ c ∷ []) noise
          (ground arith))

  -- What a worker prints is read back by the coordinator, whatever it printed before: its result as
  -- JSON on a line of its own that the reader inverts.
  pub parse_worker_output-load_to_dict :
      (loads : List ℕ → Option Json) (r : LoadResult) (noise : List ℕ)
      → loads line ≡ some (obj (load_to_dict r))
      → parse_worker_output wide loads (noise ++ 10 ∷ (line ++ 10 ∷ [])) ≡ some r
  unfolding parse_worker_output
  parse_worker_output-load_to_dict loads r noise read =
      rw (last_line-noise false [] noise refl, read) (load_from_dict-load_to_dict r)
