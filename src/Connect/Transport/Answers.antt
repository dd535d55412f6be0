-- ===== src/Connect/Transport/Answers.antt =====
-- src/mcp_quality/connect/transport.py: the items of the pages that a server answers with.
use mathlib.Core.List.{append-nil}
use mcp_probe.Connect.Transport.Pages.{IsDone, IsDone-and_more}
use mcp_probe.Base.Json.{Json}
use mcp_probe.Base.{
  sym, flat_map, length, str_eq, Bool, str_eq_iff, ◌+◌, if◌then◌else◌, ◌∷◌, [], true, false, ◌⊎◌,
  ◌↔◌, ◌≢◌, Bool-cases, ◌∙◌, subst, String, Option, ℕ, some, none, ◌≡◌, ◌≤◌, suc, ◌<◌, zero, inl,
  inr, ap, refl, arith, List, Option-cases,
}
use mcp_probe.Connect.Transport.{
  Page, Listing, running, raised, listed, asked, and_more, after_page, list_all,
}

asked-none_iff : (c : Option String) → (asked c ≡ none) ↔ ((c ≡ none) ⊎ (c ≡ some ""))
asked-none_iff none = (λ h. inl refl, λ h. refl)
asked-none_iff (some c) = elim (Bool-cases (str_eq c "")) [
  | inl bare ↦ (λ h. inr (ap some ((str_eq_iff c "").0 bare)), λ h. rw bare refl)
  | inr filled ↦
      (λ h. absurd (ground (arith, filled)), λ h. absurd (ground (arith, filled, str_eq_iff c "")))
]

asked_text : (d : String) → d ≢ "" → asked (some d) ≡ some d
asked_text d filled = ground (arith, str_eq_iff d "")

asked-some : (c : Option String) (d : String) → c ≡ some d → d ≢ "" → asked c ≡ some d
asked-some c d e filled = ap asked e ∙ asked_text d filled

of_asked : (c : Option String) (d : String) → asked c ≡ some d → (c ≡ some d) × (d ≢ "")
of_asked none d h = absurd (cc)
of_asked (some c) d h = elim (Bool-cases (str_eq c "")) [
  | inl bare ↦ absurd (ground (arith, bare))
  | inr filled ↦
      let same : some c ≡ some d = rw filled at h in
      (same, ground (arith, filled, str_eq_iff c "", str_eq_iff d ""))
]

abbrev items_of : {S : Type 0} → Listing S → List Json
items_of (listed xs s) = xs
items_of (raised s) = []
items_of running = []

abbrev state_of : {S : Type 0} → S → Listing S → S
state_of s (listed xs t) = t
state_of s (raised t) = t
state_of s running = s

module _ {S : Type 0} (method : S → Option String → Option Page × S) where
  -- The pages that the server answers with one after the other, and the state it is left in. The
  -- first request has the cursor `c`, each later one has the cursor of the page before. The answers
  -- are whole (`true`) where the last page has no cursor or an empty one, and cut off (`false`)
  -- where an answer raises.
  pub data Answers : S → Option String → List Page → Bool → S → Type 0 where
    raises : {s t : S} {c : Option String} → method s c ≡ (none, t) → Answers s c [] false t
    final :
        {s t : S} {c : Option String} {page : Page}
        → method s c ≡ (some page, t)
        → (page.next_cursor ≡ none) ⊎ (page.next_cursor ≡ some "")
        → Answers s c (page ∷ []) true t
    goes_on :
        {s t u : S} {c : Option String} {page : Page} {d : String} {pages : List Page}
        {whole : Bool}
        → method s c ≡ (some page, t)
        → page.next_cursor ≡ some d
        → d ≢ ""
        → Answers t (some d) pages whole u
        → Answers s c (page ∷ pages) whole u

  abbrev outcome : List Page → Bool → S → Listing S
  outcome pages true t = listed (flat_map (λ p. p.entries) pages) t
  outcome pages false t = raised t

  abbrev requests : List Page → Bool → ℕ
  requests pages whole = length pages + (if whole then 0 else 1)

  and_more-outcome :
      (page : Page) (pages : List Page) (whole : Bool) (t : S)
      → and_more page.entries (outcome pages whole t) ≡ outcome (page ∷ pages) whole t
  and_more-outcome page pages true t = refl
  and_more-outcome page pages false t = refl

  list_all-outcome :
      (fuel : ℕ) {s t : S} (c : Option String) {sent : Option String} {pages : List Page}
      {whole : Bool}
      → asked c ≡ sent
      → Answers s sent pages whole t
      → requests pages whole ≤ fuel
      → list_all method fuel s c ≡ outcome pages whole t
  unfolding list_all
  list_all-outcome zero c send (raises answer) h = absurd (omega arith)
  list_all-outcome zero c send (final answer last) h = absurd (omega arith)
  list_all-outcome zero c send (goes_on answer cursor filled rest) h = absurd (omega arith)
  list_all-outcome (suc fuel) c send (raises answer) h = rw (send, answer) refl
  list_all-outcome (suc fuel) c send (final {t = t} {page = page} answer last) h =
      rw (send, answer, (asked-none_iff page.next_cursor).1 last)
        (ap (λ l. listed l t) (sym (append-nil page.entries)))
  list_all-outcome (suc fuel) c send
        (goes_on {t = t} {page = page} {d = d} {pages = pages} {whole = whole} answer cursor filled
          rest)
        h =
      rw (send, answer, asked-some page.next_cursor d cursor filled)
        (ap (and_more page.entries)
            (list_all-outcome fuel (some d) (asked_text d filled) rest (omega arith))
          ∙ and_more-outcome page pages whole _)

  -- What the loop returns after the answers of the server.
  found_outcome :
      (loop : S → Option String → Listing S) (fuel : ℕ)
      → ((s : S) (c : Option String)
          → IsDone (loop s c)
          → (pages : List Page) × (whole : Bool) × (t : S) × Answers s (asked c) pages whole t
            × (loop s c ≡ outcome pages whole t)
            × (requests pages whole ≤ fuel))
      → (s : S) (c : Option String) (answer : Option Page × S) → method s (asked c) ≡ answer
      → IsDone (after_page answer loop)
      → (pages : List Page) × (whole : Bool) × (t : S) × Answers s (asked c) pages whole t
        × (after_page answer loop ≡ outcome pages whole t)
        × (requests pages whole ≤ suc fuel)
  found_outcome loop fuel later s c (none, t) e h = ([], false, t, raises e, refl, omega arith)
  found_outcome loop fuel later s c (some page, t) e h =
      elim (Option-cases (asked page.next_cursor)) [
        | inl none_left ↦ (
          page ∷ [],
          true,
          t,
          final e ((asked-none_iff page.next_cursor).0 none_left),
          rw none_left (ap (λ l. listed l t) (sym (append-nil page.entries))),
          omega arith,
        )
        | inr (d, left) ↦
            let (cursor, filled) = of_asked page.next_cursor d left in
            let (pages, whole, u, rest, same, bound) =
              later t (some d) (IsDone-and_more page.entries (loop t (some d)) (rw left at h)) in
            (
              page ∷ pages,
              whole,
              u,
              goes_on e cursor filled
                  (subst (λ c. Answers t c pages whole u) (asked_text d filled) rest),
              rw left (ap (and_more page.entries) same ∙ and_more-outcome page pages whole u),
              omega (arith, bound),
            )
      ]

  Answers-list_all :
      (fuel : ℕ) (s : S) (c : Option String)
      → IsDone (list_all method fuel s c)
      → (pages : List Page) × (whole : Bool) × (t : S) × Answers s (asked c) pages whole t
        × (list_all method fuel s c ≡ outcome pages whole t)
        × (requests pages whole ≤ fuel)
  unfolding list_all
  Answers-list_all zero s c h = absurd h
  Answers-list_all (suc fuel) s c h =
      found_outcome (list_all method fuel) fuel (Answers-list_all fuel) s c (method s (asked c))
        refl h

  of_listed :
      (fuel : ℕ) (s t : S) (xs : List Json) (pages : List Page) (whole : Bool) (u : S)
      → Answers s none pages whole u
      → outcome pages whole u ≡ listed xs t
      → requests pages whole ≤ fuel
      → (pages : List Page) × Answers s none pages true t
        × (flat_map (λ p. p.entries) pages ≡ xs)
        × (length pages ≤ fuel)
  of_listed fuel s t xs pages true u answers h bound = (
    pages,
    subst (Answers s none pages true) (ap (state_of u) h) answers,
    ap items_of h,
    omega (arith, bound),
  )
  of_listed fuel s t xs pages false u answers h bound = absurd (cc)

  of_raised :
      (fuel : ℕ) (s t : S) (pages : List Page) (whole : Bool) (u : S)
      → Answers s none pages whole u
      → outcome pages whole u ≡ raised t
      → requests pages whole ≤ fuel
      → (pages : List Page) × Answers s none pages false t × (length pages < fuel)
  of_raised fuel s t pages true u answers h bound = absurd (cc)
  of_raised fuel s t pages false u answers h bound =
      (pages, subst (Answers s none pages false) (ap (state_of u) h) answers, omega (arith, bound))

  -- From its first request, with fuel for its requests, the loop returns a list of items exactly
  -- where the server answers with pages of which the last has no cursor or an empty one, each
  -- request but the first having the cursor of the page before, and the list is the items of these
  -- pages in their order. It raises exactly where, after such pages that each have a cursor, an
  -- answer raises.
  pub list_all-Answers_iff :
      (fuel : ℕ) (s t : S) (xs : List Json)
      → ((list_all method fuel s none ≡ listed xs t)
          ↔ (pages : List Page) × Answers s none pages true t
            × (flat_map (λ p. p.entries) pages ≡ xs)
            × (length pages ≤ fuel))
        × ((list_all method fuel s none ≡ raised t)
            ↔ (pages : List Page) × Answers s none pages false t × (length pages < fuel))
  list_all-Answers_iff fuel s t xs = (
    (
      λ h.
          let (pages, whole, u, answers, same, bound) =
            Answers-list_all fuel s none (subst IsDone (sym h) tt) in
          of_listed fuel s t xs pages whole u answers (sym same ∙ h) bound,
      λ (pages, answers, items, bound).
          list_all-outcome fuel none refl answers (omega (arith, bound))
          ∙ ap (λ l. listed l t) items,
    ),
    (
      λ h.
          let (pages, whole, u, answers, same, bound) =
            Answers-list_all fuel s none (subst IsDone (sym h) tt) in
          of_raised fuel s t pages whole u answers (sym same ∙ h) bound,
      λ (pages, answers, bound). list_all-outcome fuel none refl answers (omega (arith, bound)),
    ),
  )
