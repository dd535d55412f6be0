-- ===== src/Engines/WriteVerb.antt =====
-- src/mcp_quality/engines/contract.py and safety.py: the two name patterns that find a write tool.
-- Both look at the start of the name only, so a pattern is a list of verbs and a test of what
-- follows one of them.
use mcp_probe.Base.{
  ℕ, List, Bool, String, if◌then◌else◌, ◌∷◌, ◌++◌, leb, false, true, has_prefix, any, ◌==◌, [],
  ◌&&◌, ◌||◌, codes, drop, map, length,
}
use mcp_probe.Base.Regex.{fold_code}
use mcp_probe.Models.{ToolDef, is_read_only, is_destructive}

-- The verbs of the contract engine's pattern.
abbrev pub contract_verbs : List String
contract_verbs =
    "delete" ∷ "remove" ∷ "drop" ∷ "destroy" ∷ "purge" ∷ "create" ∷ "update" ∷ "set" ∷ "write"
    ∷ "put" ∷ "post" ∷ "patch" ∷ "send" ∷ "insert" ∷ "modify" ∷ "edit" ∷ "rename" ∷ "move"
    ∷ "archive" ∷ "revoke" ∷ "reset" ∷ []

-- The further verbs of the safety engine's pattern.
abbrev pub safety_verbs : List String
safety_verbs =
    contract_verbs
    ++ ("cancel" ∷ "approve" ∷ "pay" ∷ "charge" ∷ "transfer" ∷ "deploy" ∷ "publish" ∷ "merge"
        ∷ "close" ∷ "disable" ∷ "enable" ∷ [])

abbrev is_upper : ℕ → Bool
is_upper c = leb 65 c && leb c 90

abbrev is_lower : ℕ → Bool
is_lower c = leb 97 c && leb c 122

-- `[_A-Z]`
abbrev pub boundary : List ℕ → Bool
boundary [] = false
boundary (c ∷ cs) = (c == 95) || is_upper c

-- The code points that `[_A-Z]` matches under `re.I`: either case, and the signs that fold to i, s, k.
abbrev pub loose_letter : ℕ → Bool
loose_letter c =
    (c == 95) || is_upper c || is_lower c || (c == 304) || (c == 305) || (c == 383) || (c == 8490)

-- `([_A-Z]|$)` under `re.I`; `$` also matches before a final newline
abbrev pub loose_boundary : List ℕ → Bool
loose_boundary [] = true
loose_boundary (c ∷ []) = (c == 10) || loose_letter c
loose_boundary (c ∷ _ ∷ _) = loose_letter c

-- The verb stands at the start and what follows it passes the test.
abbrev pub starts : List ℕ → (List ℕ → Bool) → List ℕ → Bool
starts verb after cs = has_prefix verb cs && after (drop (length verb) cs)

-- `_WRITE_VERB.match(name)` of contract.py
unfoldable pub contract_write_verb : String → Bool
contract_write_verb name = any (λ v. starts (codes v) boundary (codes name)) contract_verbs

-- `_WRITE_VERB.match(name)` of safety.py
unfoldable pub write_named : String → Bool
write_named name =
    any
      (λ v.
        has_prefix (codes v) (map fold_code (codes name))
        && loose_boundary (drop (length (codes v)) (codes name)))
      safety_verbs

-- `_is_write`
unfoldable pub is_write : ToolDef → Bool
is_write t =
    if is_read_only t then false else if is_destructive t then true else contract_write_verb t.name
