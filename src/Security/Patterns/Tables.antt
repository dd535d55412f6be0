-- ===== src/Security/Patterns/Tables.antt =====
-- src/mcp_quality/security/patterns.py: the tables of patterns.
use mcp_probe.Base.{String, List, ℕ, Bool, suc, true, ◌||◌, false, [], ◌∷◌, zero, ◌==◌}
use mcp_probe.Base.Regex.{
  Wide, Regex, then_, empty, one, many, boundary, text, texts, seq, any_of, optional, some_of,
  times, dot, in_range, fold_code, is_word, is_blank,
}
use mcp_probe.Contract.Errors.Patterns.{as_word}

-- `r{0,n}`
abbrev up_to : ℕ → Regex → Regex
up_to zero r = empty
up_to (suc n) r = optional (then_ r (up_to n r))

-- `r{n,}`
abbrev at_least : ℕ → Regex → Regex
at_least n r = then_ (times n r) (many r)

-- Every code point, as `.` under `re.S`
abbrev any_code : Regex
any_code = one (λ c. true)

abbrev pub is_letter_or_digit : ℕ → Bool
is_letter_or_digit c = in_range 65 90 c || in_range 97 122 c || in_range 48 57 c

abbrev alnum : Regex
alnum = one is_letter_or_digit

abbrev upper_or_digit : Regex
upper_or_digit = one (λ c. in_range 48 57 c || in_range 65 90 c)

module _ (wide : Wide) where
  -- `_INJECTION_PATTERNS`
  unfoldable pub injection_patterns : List (String × Regex)
  injection_patterns =
      (
        "override-instruction",
        seq (
            text true "ignore "
            ∷ optional (texts true "all " ("the " ∷ []))
            ∷ texts true "previous" ("prior" ∷ "above" ∷ [])
            ∷ text true " instructions"
            ∷ []),
      )
      ∷ (
        "hidden-directive",
        seq (
            text true "<"
            ∷ any_of (text true "important") (
                text true "system"
                ∷ text true "secret"
                ∷ seq (text true "instruction" ∷ optional (text true "s") ∷ [])
                ∷ [])
            ∷ text true ">"
            ∷ []),
      )
      ∷ (
        "imperative-injection",
        as_word (
            seq (
              texts true "you must" ("always" ∷ "never" ∷ [])
              ∷ text true " "
              ∷ texts true "call" ("use" ∷ "invoke" ∷ "run" ∷ "send" ∷ [])
              ∷ [])),
      )
      ∷ (
        "data-exfil",
        seq (
            any_of (text true "send") (
              text true "forward"
              ∷ text true "leak"
              ∷ seq (text true "exfiltrat" ∷ some_of (one (is_word wide)) ∷ [])
              ∷ [])
            ∷ up_to 30 dot
            ∷ boundary
            ∷ texts true "to " ("@" ∷ [])
            ∷ boundary
            ∷ []),
      )
      ∷ ("html-comment", seq (text false "<!--" ∷ many any_code ∷ text false "-->" ∷ []))
      ∷ (
        "tool-shadow",
        as_word (seq (text true "do not " ∷ texts true "mention" ("tell" ∷ "reveal" ∷ []) ∷ [])),
      )
      ∷ []

  -- `_SECRET_PATTERNS`
  unfoldable pub secret_patterns : List (String × Regex)
  secret_patterns =
      ("openai-key", as_word (seq (text false "sk-" ∷ at_least 20 alnum ∷ [])))
      ∷ ("aws-key", as_word (seq (text false "AKIA" ∷ times 16 upper_or_digit ∷ [])))
      ∷ (
        "github-token",
        as_word (
            seq (
              text false "gh"
              ∷ texts false "p" ("o" ∷ "s" ∷ "u" ∷ [])
              ∷ text false "_"
              ∷ at_least 20 alnum
              ∷ [])),
      )
      ∷ (
        "slack-token",
        as_word (
            seq (
              text false "xox"
              ∷ texts false "b" ("a" ∷ "p" ∷ "r" ∷ "s" ∷ [])
              ∷ text false "-"
              ∷ at_least 10 (one (λ c. is_letter_or_digit c || (c == 45)))
              ∷ [])),
      )
      ∷ (
        "private-key",
        seq (
            text false "-----BEGIN "
            ∷ optional (texts false "RSA " ("EC " ∷ []))
            ∷ text false "PRIVATE KEY-----"
            ∷ []),
      )
      ∷ (
        "generic-bearer",
        as_word (
            seq (
              text true "bearer"
              ∷ some_of (one (is_blank wide))
              ∷ at_least 20 (
                  one
                    (λ c. is_letter_or_digit (fold_code c) || (c == 46) || (c == 95) || (c == 45)))
              ∷ [])),
      )
      ∷ []

  -- `_DANGEROUS`
  unfoldable pub dangerous : Regex
  dangerous = as_word (
      any_of (texts true "exec" ("eval" ∷ "shell" ∷ "subprocess" ∷ "os.system" ∷ "spawn" ∷ [])) (
        seq (text true "/bin/" ∷ texts true "sh" ("bash" ∷ []) ∷ [])
        ∷ seq (text true "rm" ∷ some_of (one (is_blank wide)) ∷ text true "-rf" ∷ [])
        ∷ texts true "sudo"
            ("chmod" ∷ "write_file" ∷ "delete_file" ∷ "drop_table" ∷ "arbitrary code" ∷ [])
        ∷ []))
