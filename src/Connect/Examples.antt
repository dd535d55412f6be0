-- ===== src/Connect/Examples.antt =====
-- Examples of discovery.
use mathlib.Core.List.{Perm}
use mathlib.Core.List.Perm
use mcp_probe.Base.{
  str_eq_iff, ◌↔◌, flat_map, length, ◌≤◌, inl, String, List, ℕ, Option, some, none, refl, true,
  false, suc, ◌≡◌, arith, [], ◌∷◌, zero, ◌<◌, ap,
}
use mcp_probe.Base.Json.{Json, null, bool}
use mcp_probe.Models.{ToolDef}
use mcp_probe.Models.Samples.{search_tool}
use mcp_probe.Connect.Hash.{compute_hash}
use mcp_probe.Connect.Hash.Permuted.{distinct_names, compute_hash-Perm}
use mcp_probe.Connect.Transport.{Page, raised, running, asked, listed, list_all}
use mcp_probe.Connect.Transport.Pages.{IsDone, IsDone-list_all, list_all-endless}
use mcp_probe.Connect.Transport.Answers.{Answers, goes_on, final, list_all-Answers_iff}

abbrev last_page : Page
last_page = record { entries = bool true ∷ []; next_cursor = none }

abbrev first_page : Page
first_page = record { entries = bool false ∷ []; next_cursor = some "2" }

-- A server with as many pages to come as its state says.
abbrev countdown : ℕ → Option String → Option Page × ℕ
countdown zero c = (some last_page, zero)
countdown (suc n) c = (some first_page, n)

abbrev cursor_of : Option Page × ℕ → Option String
cursor_of (none, s) = none
cursor_of (some page, s) = asked page.next_cursor

countdown-lower :
    (s t : ℕ) (c : Option String) (page : Page) (d : String)
    → countdown s c ≡ (some page, t)
    → asked page.next_cursor ≡ some d
    → t < s
countdown-lower zero t c page d e h =
    let ends : none ≡ asked page.next_cursor = ap cursor_of e in absurd (ground arith)
countdown-lower (suc n) t c page d e h =
    let left : n ≡ t = ap (λ (r : Option Page × ℕ). r.1) e in omega arith

IsDone-list_all_example : IsDone (list_all countdown 4 3 none)
IsDone-list_all_example = IsDone-list_all countdown (λ n. n) countdown-lower 4 3 none (omega arith)

list_all-Answers_iff_example :
    ((list_all countdown 5 1 none ≡ listed (bool false ∷ bool true ∷ []) 0)
      ↔ (pages : List Page) × Answers countdown 1 none pages true 0
        × (flat_map (λ p. p.entries) pages ≡ bool false ∷ bool true ∷ [])
        × (length pages ≤ 5))
    × ((list_all countdown 5 1 none ≡ raised 0)
        ↔ (pages : List Page) × Answers countdown 1 none pages false 0 × (length pages < 5))
list_all-Answers_iff_example = list_all-Answers_iff countdown 5 1 0 (bool false ∷ bool true ∷ [])

two_requests : Answers countdown 1 none (first_page ∷ last_page ∷ []) true 0
two_requests =
    goes_on refl refl (λ h. absurd (ground (arith, str_eq_iff "2" ""))) (final refl (inl refl))

two_pages : list_all countdown 5 1 none ≡ listed (bool false ∷ bool true ∷ []) 0
two_pages =
    (list_all-Answers_iff countdown 5 1 0 (bool false ∷ bool true ∷ [])).0.1
      (first_page ∷ last_page ∷ [], two_requests, refl, omega arith)

-- A server that always has one more page.
abbrev endless : Unit {0} → Option String → Option Page × Unit {0}
endless s c = (some first_page, tt)

list_all-endless_example : list_all endless 9 tt none ≡ running
list_all-endless_example =
    list_all-endless endless (λ s c. (first_page, tt, "2", refl, refl)) 9 tt none

abbrev fetch_tool : ToolDef
fetch_tool = record search_tool { name = "fetch" }

swapped : Perm (search_tool ∷ fetch_tool ∷ []) (fetch_tool ∷ search_tool ∷ [])
swapped = Perm.swap fetch_tool search_tool []

distinct : distinct_names (search_tool ∷ fetch_tool ∷ []) ≡ true
unfolding distinct_names
distinct = refl

compute_hash-Perm_example :
    compute_hash (λ s. s) (λ v. "") (search_tool ∷ fetch_tool ∷ [])
    ≡ compute_hash (λ s. s) (λ v. "") (fetch_tool ∷ search_tool ∷ [])
compute_hash-Perm_example =
    compute_hash-Perm (λ s. s) (λ v. "") (search_tool ∷ fetch_tool ∷ [])
      (fetch_tool ∷ search_tool ∷ []) swapped distinct

abbrev hints : List (String × Json)
hints =
    ("read_only_hint", bool true) ∷ ("destructiveHint", null) ∷ ("readOnlyHint", bool false) ∷ []
