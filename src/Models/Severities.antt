-- ===== src/Models/Severities.antt =====
-- src/mcp_quality/models.py: `class Severity(IntEnum)`.
use mcp_probe.Base.{
  ℕ, String, Bool, false, Option, none, some, ◌==◌, if◌then◌else◌, ◌≡◌, map, codes, codes_eq,
  upper_code, strip, refl,
}

pub data Severity : Type 0 where
  info low medium high critical : Severity

-- The integer value of the enumeration's member.
unfoldable pub value : Severity → ℕ
value info = 0
value low = 1
value medium = 2
value high = 3
value critical = 4

-- `severity.name`
unfoldable pub name : Severity → String
name info = "INFO"
name low = "LOW"
name medium = "MEDIUM"
name high = "HIGH"
name critical = "CRITICAL"

-- `str(severity)`: the name in lower case
unfoldable pub show_severity : Severity → String
show_severity info = "info"
show_severity low = "low"
show_severity medium = "medium"
show_severity high = "high"
show_severity critical = "critical"

-- The argument of `Severity.parse`: a text, an integer with its sign, or a member.
pub data SeverityInput : Type 0 where
  text : String → SeverityInput
  number : Bool → ℕ → SeverityInput
  member : Severity → SeverityInput

-- `cls(value)`; `none` is a ValueError
unfoldable pub of_number : ℕ → Option Severity
of_number n =
    if n == 0
    then some info
    else if n == 1
    then some low
    else if n == 2
    then some medium
    else if n == 3
    then some high
    else if n == 4
    then some critical
    else none

-- `cls[value.strip().upper()]`; `none` is a KeyError
unfoldable pub of_name : String → Option Severity
of_name s =
    let key = map upper_code (strip (codes s)) in
    if codes_eq key (codes "INFO")
    then some info
    else if codes_eq key (codes "LOW")
    then some low
    else if codes_eq key (codes "MEDIUM")
    then some medium
    else if codes_eq key (codes "HIGH")
    then some high
    else if codes_eq key (codes "CRITICAL")
    then some critical
    else none

-- `Severity.parse`
unfoldable pub parse : SeverityInput → Option Severity
unfolding of_name of_number
parse (text s) = of_name s
parse (number negative n) = if negative then none else of_number n
parse (member s) = some s

pub parse-show : (s : Severity) → parse (text (show_severity s)) ≡ some s
unfolding parse show_severity
parse-show info = refl
parse-show low = refl
parse-show medium = refl
parse-show high = refl
parse-show critical = refl

pub parse-name : (s : Severity) → parse (text (name s)) ≡ some s
unfolding parse name
parse-name info = refl
parse-name low = refl
parse-name medium = refl
parse-name high = refl
parse-name critical = refl

pub parse-value : (s : Severity) → parse (number false (value s)) ≡ some s
unfolding parse value
parse-value info = refl
parse-value low = refl
parse-value medium = refl
parse-value high = refl
parse-value critical = refl
