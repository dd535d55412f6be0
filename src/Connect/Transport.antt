-- ===== src/Connect/Transport.antt =====
-- src/mcp_quality/connect/transport.py: the choice of the transport, and discovery over pages.
-- The server is a parameter: what it answers to a list request, from its state and the cursor.
pub mod Pages
pub mod Answers
pub mod Stable
mod Examples
use mcp_probe.Base.{
  ◌>>=◌, String, Option, List, Bool, ℕ, some, none, if◌then◌else◌, ◌++◌, [], suc, ◌∷◌, true, false,
  zero, inl, inr, not, str_empty, ◌&&◌, str_eq, has_prefix, codes, strip, ◌||◌,
}
use mcp_probe.Base.Json.{Json, Fields, end}
use mcp_probe.Models.{ServerSurface}
use mcp_probe.Connect.Discover.{surface_from_tools}

-- What `_pick_transport` and `_discover` read of `ProbeConfig` and `ConnectRecord`
pub record ConnectRecord : Type 0 where
  pub server_info : Fields
  pub capabilities : Fields
  pub protocol_version : String
  pub transport : String

-- `_pick_transport`
unfoldable pub pick_transport : String → String → String
pick_transport transport target =
    if not (str_empty transport) && not (str_eq transport "auto")
    then transport
    else if has_prefix (codes "http://") (strip (codes target))
        || has_prefix (codes "https://") (strip (codes target))
    then "streamable-http"
    else "stdio"

-- One answer: its items, `[]` where it has none, and `nextCursor`
pub record Page : Type 0 where
  pub entries : List Json
  pub next_cursor : Option String

-- How a listing ends: `running` is fuel spent, `raised` an exception
pub data Listing (S : Type 0) : Type 0 where
  running : Listing S
  raised : S → Listing S
  listed : List Json → S → Listing S

-- `cursor if cursor else <no argument>`
abbrev pub asked : Option String → Option String
asked none = none
asked (some c) = if str_empty c then none else some c

abbrev pub and_more : {S : Type 0} → List Json → Listing S → Listing S
and_more xs running = running
and_more xs (raised s) = raised s
and_more xs (listed ys s) = listed (xs ++ ys) s

-- `if not cursor: return items`, else the next round of `loop`
abbrev pub after_items :
    {S : Type 0} → Page → S → Option String → (S → Option String → Listing S) → Listing S
after_items page s none loop = listed page.entries s
after_items page s (some c) loop = and_more page.entries (loop s (some c))

-- The loop's body after an answer
abbrev pub after_page : {S : Type 0} → Option Page × S → (S → Option String → Listing S) → Listing S
after_page (none, s) loop = raised s
after_page (some page, s) loop = after_items page s (asked page.next_cursor) loop

-- `except Exception: return []`
abbrev pub or_none : {S : Type 0} → Listing S → Listing S
or_none (raised s) = listed [] s
or_none running = running
or_none (listed xs s) = listed xs s

-- The next listing, where the last one ended; `none` is an exception, or fuel that is spent
abbrev pub then_list : {S : Type 0} {A : Type 0} → Listing S → (List Json → S → Option A) → Option A
then_list running k = none
then_list (raised s) k = none
then_list (listed xs s) k = k xs s

module _ {S : Type 0} (method : S → Option String → Option Page × S) where
  -- `_list_all`; `fuel` bounds the requests
  unfoldable pub list_all : ℕ → S → Option String → Listing S
  list_all zero s cursor = running
  list_all (suc fuel) s cursor = after_page (method s (asked cursor)) (list_all fuel)

  -- `_safe_list`
  unfoldable pub safe_list : ℕ → S → Listing S
  safe_list fuel s = or_none (list_all fuel s none)

module _ {S : Type 0} (list_tools list_resources list_prompts : S → Option String → Option Page × S)
    (sha256 : String → String) (dumps : Json → String) where
  -- `_discover`
  unfoldable pub discover : ℕ → S → ConnectRecord → Option ServerSurface
  discover fuel s rec = then_list (list_all list_tools fuel s none) (λ tools s₁.
      then_list (safe_list list_resources fuel s₁) (λ resources s₂.
        then_list (safe_list list_prompts fuel s₂) (λ prompts s₃.
          surface_from_tools sha256 dumps tools resources prompts rec.server_info rec.capabilities
            rec.protocol_version rec.transport)))

  -- `_probe_tools_list_stability`, once the second session stands; `none` is not measured
  unfoldable pub tools_list_stable : ℕ → S → String → Option Bool
  tools_list_stable fuel s first_hash = then_list (list_all list_tools fuel s none) (λ tools t. do
    second ← surface_from_tools sha256 dumps tools [] [] end end "" "stdio"
    some (str_eq second.surface_hash first_hash))
