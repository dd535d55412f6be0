-- ===== src/Base/Json/Typed.antt =====
-- Fields at their annotated types: `none` is a KeyError, or a value of another JSON type.
use mcp_probe.Base.Json.{Fields, null, str, find_field}
use Prim.Native.String.{String}
use mathlib.Core.Option.{Option, none, some}

-- `d[k]`, a text
abbrev pub required : String → Fields → Option String
required k d = elim (find_field k d) [ some (str s) ↦ some s | _ ↦ none ]

-- `d.get(k)`, a text or `None`
abbrev pub optional : String → Fields → Option (Option String)
optional k d = elim (find_field k d) [
  | none ↦ some none
  | some null ↦ some none
  | some (str s) ↦ some (some s)
  | _ ↦ none
]
