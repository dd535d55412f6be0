-- ===== src/Engines/Tokens.antt =====
-- src/mcp_quality/tokens.py: the toolset's text and the counter that needs no package.
-- `json.dumps` and the counters of packages are parameters.
use mcp_probe.Base.{
  String, List, ℕ, Bool, ◌∷◌, map, ◌*◌, text_or_empty, true, false, [], if◌then◌else◌, codes, suc,
}
use mcp_probe.Base.Ratio
use mcp_probe.Base.Ratio.{ratio}
use mcp_probe.Base.Json.{Json, obj, arr, str, of_fields, of_items}
use mcp_probe.Base.Regex.{Wide, is_word, is_blank}
use mcp_probe.Models.{ToolDef}

-- `TokenCounter`
pub record TokenCounter : Type 0 where
  pub name : String
  pub count : String → ℕ

-- `serialize_tool`
unfoldable pub serialize_tool : ToolDef → Json
serialize_tool t = obj (
    of_fields (
      ("name", str t.name)
      ∷ ("description", str (text_or_empty t.description))
      ∷ ("input_schema", t.input_schema)
      ∷ []))

-- `serialize_toolset`
unfoldable pub serialize_toolset : (Json → String) → List ToolDef → String
serialize_toolset dumps tools = dumps (arr (of_items (map serialize_tool tools)))

-- `len(_token_re.findall(text))`, where `in_word` says that a word goes on here
unfoldable pub count_pieces : Wide → Bool → List ℕ → ℕ
count_pieces wide in_word [] = 0
count_pieces wide in_word (c ∷ cs) =
    let after_word = count_pieces wide true cs in
    let after_other = count_pieces wide false cs in
    if is_word wide c
    then if in_word then after_word else suc after_word
    else if is_blank wide c
    then after_other
    else suc after_other

-- `HeuristicCounter`
unfoldable pub heuristic_counter : Wide → TokenCounter
heuristic_counter wide = record {
  name = "heuristic";
  count = λ text. Ratio.round_units 1 (ratio (13 * count_pieces wide false (codes text)) 10);
}
