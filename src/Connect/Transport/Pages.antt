-- ===== src/Connect/Transport/Pages.antt =====
-- src/mcp_quality/connect/transport.py: how the loop over the pages ends.
use mcp_probe.Base.Json.{Json}
use mcp_probe.Base.{
  String, Option, ℕ, some, none, ◌≡◌, suc, ◌<◌, zero, inl, inr, refl, arith, List, Option-cases,
}
use mcp_probe.Connect.Transport.{
  Page, Listing, running, raised, listed, asked, and_more, after_page, list_all,
}

-- `listed` or `raised`
abbrev pub IsDone : {S : Type 0} → Listing S → Type 0
IsDone running = ⊥
IsDone (raised s) = Unit
IsDone (listed xs s) = Unit

pub IsDone-and_more :
    {S : Type 0} (xs : List Json) (l : Listing S) → IsDone (and_more xs l) → IsDone l
IsDone-and_more xs running h = h
IsDone-and_more xs (raised s) h = tt
IsDone-and_more xs (listed ys s) h = tt

and_more-IsDone : {S : Type 0} (xs : List Json) (l : Listing S) → IsDone l → IsDone (and_more xs l)
and_more-IsDone xs running h = h
and_more-IsDone xs (raised s) h = tt
and_more-IsDone xs (listed ys s) h = tt

module _ {S : Type 0} (method : S → Option String → Option Page × S) where
  module _ (rank : S → ℕ)
      (lower : (s t : S) (c : Option String) (page : Page) (d : String)
        → method s c ≡ (some page, t)
        → asked page.next_cursor ≡ some d
        → rank t < rank s) where
    round-IsDone :
        (loop : S → Option String → Listing S) (fuel : ℕ)
        → ((s : S) (c : Option String) → rank s < fuel → IsDone (loop s c))
        → (s : S) (c : Option String) (answer : Option Page × S) → method s c ≡ answer
        → rank s < suc fuel
        → IsDone (after_page answer loop)
    round-IsDone loop fuel later s c (none, t) e h = tt
    round-IsDone loop fuel later s c (some page, t) e h =
        elim (Option-cases (asked page.next_cursor)) [
          | inl ends ↦ rw ends tt
          | inr (d, goes) ↦ rw goes (
              and_more-IsDone page.entries (loop t (some d))
                (later t (some d) (omega (arith, lower s t c page d e goes))))
        ]

    -- Where each answer with a cursor lowers a rank of the server's state, fuel above the rank is
    -- enough: the loop returns the items or raises what an answer raised.
    pub IsDone-list_all :
        (fuel : ℕ) (s : S) (c : Option String) → rank s < fuel → IsDone (list_all method fuel s c)
    unfolding list_all
    IsDone-list_all zero s c h = absurd (omega arith)
    IsDone-list_all (suc fuel) s c h =
        round-IsDone (list_all method fuel) fuel (IsDone-list_all fuel) s (asked c)
          (method s (asked c)) refl h

  -- Where every answer of the server has a cursor, the loop is still running whatever its fuel.
  pub list_all-endless :
      ((s : S) (c : Option String)
        → (page : Page) × (t : S) × (d : String) × (method s c ≡ (some page, t))
          × (asked page.next_cursor ≡ some d))
      → (fuel : ℕ) (s : S) (c : Option String) → list_all method fuel s c ≡ running
  unfolding list_all
  list_all-endless always zero s c = refl
  list_all-endless always (suc fuel) s c =
      let (page, t, d, answer, goes) = always s (asked c) in
      rw (answer, goes, list_all-endless always fuel t (some d)) refl
