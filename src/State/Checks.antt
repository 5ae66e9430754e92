-- ===== src/State/Checks.antt =====
-- A validation is a list of checks; the first that fails is raised. The `_require_...` helpers of
-- backend/app/v2/domain/scrum_state.py.
use jira_simulator.Base.{
  ℕ, ◌-◌, ◌^◌, String, is_canonical_text, is_lower_hex, Bool, true, false, Option, none, some, List,
  [], ◌∷◌, ◌≡◌, refl, leb, All,
}
use jira_simulator.Base.Result.{Result, ok, require, ◌>>◌}

-- A `ValueError` with its text, or with the label that stands before the text.
pub data Fault : Type 0 where
  value_error : String → Fault
  labelled : String → String → Fault

abbrev pub Check : Type 0
Check = Bool × Fault

abbrev pub check : List Check → Result Fault (Unit {0})
check [] = ok tt
check ((passes, fault) ∷ rest) = require passes fault >> check rest

abbrev pub Passes : Check → Type 0
Passes c = c.0 ≡ true

pub check-All : (checks : List Check) → check checks ≡ ok tt → All Passes checks
check-All [] h = tt
check-All ((true, fault) ∷ rest) h = (refl, check-All rest h)
check-All ((false, fault) ∷ rest) h = cc

pub All-check : (checks : List Check) → All Passes checks → check checks ≡ ok tt
All-check [] h = refl
All-check ((true, fault) ∷ rest) (_, h) = All-check rest h
All-check ((false, fault) ∷ rest) (h, _) = cc

abbrev pub max_safe_integer : ℕ
max_safe_integer = 2 ^ 53 - 1

abbrev pub max_counter_next_value : ℕ
max_counter_next_value = 2 ^ 53

abbrev pub max_sqlite_integer : ℕ
max_sqlite_integer = 2 ^ 63 - 1

abbrev pub require_safe_integer : ℕ → String → Check
require_safe_integer value label =
    (leb value max_safe_integer, labelled label "must not exceed 2^53 - 1")

abbrev pub require_counter_value : ℕ → Check
require_counter_value value = (
  leb value max_counter_next_value,
  value_error "next_value must be safe or the exact exhausted sentinel",
)

abbrev pub require_microseconds : ℕ → String → Check
require_microseconds value label = (
  leb value max_sqlite_integer,
  labelled label "must fit the non-negative signed SQLite integer range",
)

abbrev pub require_text : String → String → Check
require_text value label =
    (is_canonical_text value, labelled label "must be non-empty canonical text")

abbrev pub require_optional_text : Option String → String → List Check
require_optional_text none label = []
require_optional_text (some value) label = require_text value label ∷ []

abbrev pub require_lower_hex_digest : String → String → List Check
require_lower_hex_digest value label =
    require_text value label
    ∷ (is_lower_hex value 64, labelled label "must be a lower-case SHA-256 digest")
    ∷ []
