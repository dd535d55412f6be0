-- ===== src/Contract/Errors/Patterns.antt =====
-- src/mcp_quality/contract/errors.py: the patterns of an error's text.
use mcp_probe.Base.{String, not, ◌∷◌, ℕ, Bool, List, true, ◌==◌, [], ◌||◌, false}
use mcp_probe.Base.Regex.{
  Wide, Regex, one, many, boundary, starts, ends, text, texts, seq, any_of, optional, some_of,
  times, lit, in_range, letter_or_underscore, is_word, is_digit,
}

-- `[^"]+`
abbrev quoted : Regex
quoted = some_of (one (λ c. not (c == 34)))

-- `\b` around an alternative
abbrev pub as_word : Regex → Regex
as_word r = seq (boundary ∷ r ∷ boundary ∷ [])

abbrev exactly : ℕ → Regex → Regex
exactly n r = times n r

abbrev key_code : ℕ → Bool
key_code c = in_range 65 90 c || in_range 97 122 c || in_range 48 57 c

abbrev upper_or_digit : ℕ → Bool
upper_or_digit c = in_range 48 57 c || in_range 65 90 c

module _ (wide : Wide) where
  -- `\d`
  abbrev pub digit : Regex
  digit = one (is_digit wide)

  -- `Traceback \(most recent call last\)|File \"[^\"]+\", line \d+`
  abbrev pub stack_trace : Bool → Regex
  stack_trace fold =
      any_of (text fold "Traceback (most recent call last)")
        (seq (text fold "File \"" ∷ quoted ∷ text fold "\", line " ∷ some_of digit ∷ []) ∷ [])

  -- `_LEAK_PATTERNS`
  unfoldable pub leak_patterns : List (String × Regex)
  leak_patterns =
      ("stack-trace", stack_trace false)
      ∷ (
        "exception-class",
        seq (
            boundary
            ∷ some_of (letter_or_underscore false)
            ∷ texts false "Error" ("Exception" ∷ [])
            ∷ boundary
            ∷ text false ":"
            ∷ []),
      )
      ∷ (
        "filesystem-path",
        any_of
            (seq (
              text false "/"
              ∷ texts false "usr" ("home" ∷ "Users" ∷ "var" ∷ "opt" ∷ "etc" ∷ [])
              ∷ text false "/"
              ∷ []))
            (seq (
                one (λ c. in_range 65 90 c || in_range 97 122 c)
                ∷ text false ":"
                ∷ times 2 (lit false 92)
                ∷ [])
              ∷ []),
      )
      ∷ (
        "secret",
        any_of
            (seq (
              boundary
              ∷ text false "sk-"
              ∷ exactly 16 (one key_code)
              ∷ many (one key_code)
              ∷ boundary
              ∷ []))
            (seq (boundary ∷ text false "AKIA" ∷ exactly 16 (one upper_or_digit) ∷ boundary ∷ [])
              ∷ seq (
                  text false "BEGIN "
                  ∷ optional (text false "RSA ")
                  ∷ text false "PRIVATE KEY"
                  ∷ [])
              ∷ []),
      )
      ∷ []

  -- `_OPAQUE`
  unfoldable pub opaque_pattern : Regex
  opaque_pattern = seq (
      starts
      ∷ any_of (text true "error") (
          text true "failed"
          ∷ text true "failure"
          ∷ text true "something went wrong"
          ∷ seq (text true "internal" ∷ optional (text true " server") ∷ text true " error" ∷ [])
          ∷ text true "unknown error"
          ∷ text true "bad request"
          ∷ text true "invalid"
          ∷ seq (text true "not" ∷ optional (text true " ") ∷ text true "ok" ∷ [])
          ∷ exactly 3 digit
          ∷ [])
      ∷ optional (text true ".")
      ∷ ends
      ∷ [])

  -- `_ACTIONABLE`
  unfoldable pub actionable_pattern : Regex
  actionable_pattern = as_word (
      any_of (text true "retry") (
        text true "retryable"
        ∷ seq (
            text true "retry"
            ∷ optional (one (λ c. (c == 95) || (c == 45)))
            ∷ text true "after"
            ∷ [])
        ∷ text true "must be"
        ∷ text true "required"
        ∷ text true "expected"
        ∷ text true "provide"
        ∷ text true "missing"
        ∷ text true "invalid value"
        ∷ text true "out of range"
        ∷ text true "did you mean"
        ∷ seq (text true "use " ∷ some_of (one (is_word wide)) ∷ text true " instead" ∷ [])
        ∷ text true "not found"
        ∷ text true "unauthorized"
        ∷ seq (text true "rate" ∷ optional (text true " ") ∷ text true "limit" ∷ [])
        ∷ text true "too large"
        ∷ text true "exceeds"
        ∷ []))
