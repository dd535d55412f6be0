-- ===== src/Report/Badge.antt =====
-- src/mcp_quality/report/badge.py: the badge of a grade. `html.escape` and `json.dumps` are
-- parameters.
use mcp_probe.Base.Ratio
use mcp_probe.Base.Ratio.{Ratio}
use mcp_probe.Base.Json.{nat, of_fields, Fields, str}
use mcp_probe.Base.Dict.{values, Dict, get}
use mcp_probe.Base.{
  refl, str_eq, Bool-cases, All, is_some, show_nat, option_or, join, ◌>>=◌, String, ◌∷◌, ℕ, Option,
  ◌<>◌, List, ◌+◌, [], max, ◌/◌, if◌then◌else◌, ◌++◌, length, ◌%◌, str_empty, ◌*◌, codes, ◌==◌,
  some, ◌≡◌, none, true, inl, inr, arith,
}

-- `_GRADE_COLOR`
unfoldable pub grade_colors : Dict String
grade_colors =
    ("A", "brightgreen")
    ∷ ("B", "green")
    ∷ ("C", "yellow")
    ∷ ("D", "orange")
    ∷ ("F", "red")
    ∷ ("not-measured", "lightgrey")
    ∷ []

-- `_COLOR_HEX`
unfoldable pub color_hexes : Dict String
color_hexes =
    ("brightgreen", "#4c1")
    ∷ ("green", "#97ca00")
    ∷ ("yellow", "#dfb317")
    ∷ ("orange", "#fe7d37")
    ∷ ("red", "#e05d44")
    ∷ ("lightgrey", "#9f9f9f")
    ∷ []

-- `badge_color`
unfoldable pub badge_color : String → String
badge_color grade = option_or (get grade grade_colors) "lightgrey"

-- `shields_endpoint`
unfoldable pub shields_endpoint : String → String → Fields
shields_endpoint grade label = of_fields (
    ("schemaVersion", nat 1)
    ∷ ("label", str label)
    ∷ ("message", str grade)
    ∷ ("color", str (badge_color grade))
    ∷ [])

-- `_text_width`
unfoldable pub text_width : String → ℕ
text_width text = max (length (codes text) * 7 + 10) 20

-- `{n / 2}` of a whole number
unfoldable pub show_half : ℕ → String
show_half n = show_nat (n / 2) <> (if n % 2 == 0 then ".0" else ".5")

-- `message`
unfoldable pub badge_message : String → Option Ratio → String
badge_message grade none = grade
badge_message grade (some score) = grade <> " · " <> show_nat (Ratio.round_units 1 score)

option_or-get :
    (P : String → Type 0) (d : Dict String) (k default : String)
    → All P (values d)
    → P default
    → P (option_or (get k d) default)
unfolding get
option_or-get P [] k default all h = h
option_or-get P ((j, v) ∷ d) k default all h = elim (Bool-cases (str_eq j k)) [
  | inl here ↦ rw here all.0
  | inr other ↦ rw other (option_or-get P d k default all.1 h)
]

-- Each colour has a hex form.
badge_color-hex : (grade : String) → is_some (get (badge_color grade) color_hexes) ≡ true
unfolding badge_color grade_colors color_hexes get
badge_color-hex grade =
    option_or-get (λ (c : String). is_some (get c color_hexes) ≡ true) grade_colors grade
      "lightgrey" (refl, (refl, (refl, (refl, (refl, (refl, tt)))))) refl

module _ (escape : String → String) where
  abbrev title_of : String → String → String → String
  title_of label message rubric_version = escape (
      label
      <> ": "
      <> message
      <> (if str_empty rubric_version then "" else " (rubric " <> rubric_version <> ")"))

  abbrev head_lines : String → String → List String
  head_lines total title =
      ("<svg xmlns=\"http://www.w3.org/2000/svg\" width=\"" <> total
        <> "\" height=\"20\" role=\"img\" aria-label=\"" <> title <> "\">")
      ∷ ("  <title>" <> title <> "</title>")
      ∷ "  <linearGradient id=\"s\" x2=\"0\" y2=\"100%\">"
      ∷ "    <stop offset=\"0\" stop-color=\"#bbb\" stop-opacity=\".1\"/>"
      ∷ "    <stop offset=\"1\" stop-opacity=\".1\"/>"
      ∷ "  </linearGradient>"
      ∷ ("  <clipPath id=\"r\"><rect width=\"" <> total
          <> "\" height=\"20\" rx=\"3\" fill=\"#fff\"/></clipPath>")
      ∷ []

  abbrev shape_lines : ℕ → ℕ → String → List String
  shape_lines lw mw color =
      "  <g clip-path=\"url(#r)\">"
      ∷ ("    <rect width=\"" <> show_nat lw <> "\" height=\"20\" fill=\"#555\"/>")
      ∷ ("    <rect x=\""
          <> show_nat lw
          <> "\" width=\""
          <> show_nat mw
          <> "\" height=\"20\" fill=\""
          <> color
          <> "\"/>")
      ∷ ("    <rect width=\"" <> show_nat (lw + mw) <> "\" height=\"20\" fill=\"url(#s)\"/>")
      ∷ "  </g>"
      ∷ []

  -- `x` is twice the place of the text.
  abbrev text_lines : ℕ → String → List String
  text_lines x content =
      ("    <text x=\""
        <> show_half x
        <> "\" y=\"15\" fill=\"#010101\" fill-opacity=\".3\">"
        <> content
        <> "</text>")
      ∷ ("    <text x=\"" <> show_half x <> "\" y=\"14\">" <> content <> "</text>")
      ∷ []

  -- The text of the badge in a colour
  unfoldable pub svg_of : String → String → String → String → String
  svg_of label message title color =
      let lw = text_width label in
      let mw = text_width message in
      join "\n" (
        head_lines (show_nat (lw + mw)) title
        ++ (shape_lines lw mw color
            ++ ("  <g fill=\"#fff\" text-anchor=\"middle\" font-family=\"Verdana,Geneva,DejaVu Sans,sans-serif\" font-size=\"11\">"
                ∷ (text_lines lw (escape label)
                    ++ (text_lines (2 * lw + mw) (escape message) ++ "  </g>" ∷ "</svg>" ∷ [])))))

  -- `badge_svg`; `none` is a KeyError of the colours
  unfoldable pub badge_svg : String → String → String → Option Ratio → Option String
  badge_svg grade label rubric_version score = do
    color ← get (badge_color grade) color_hexes
    some (
        svg_of label (badge_message grade score)
          (title_of label (badge_message grade score) rubric_version) color)

  -- Whatever the grade is, a badge is drawn: its colour is always one that has a hex form.
  badge_svg-drawn :
      (grade label rubric_version : String) (score : Option Ratio)
      → is_some (badge_svg grade label rubric_version score) ≡ true
  unfolding badge_svg
  badge_svg-drawn grade label rubric_version score = ground (arith, badge_color-hex grade)
