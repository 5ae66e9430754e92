-- ===== src/Base/Text.antt =====
-- Tests on texts: white space at their ends, hexadecimal digits.
use Prim.Native.Char.{code}
use Prim.Native.String.{String}
use Prim.Native.Nat.{ℕ, ◌-◌}
use mathlib.Core.Bool.{Bool, true, false, not, ◌&&◌, ◌||◌}
use jira_simulator.Base.Tests.{leb, ◌==◌}

-- The code points that `str.isspace` accepts.
is_space : ℕ → Bool
is_space c =
    (leb 9 c && leb c 13)
    || (leb 28 c && leb c 32)
    || c == 133
    || c == 160
    || c == 5760
    || (leb 8192 c && leb c 8202)
    || c == 8232
    || c == 8233
    || c == 8239
    || c == 8287
    || c == 12288

unfoldable pub is_blank : String → Bool
unfolding is_space
is_blank String.[] = true
is_blank (String.◌∷◌ c s) = is_space (code c) && is_blank s

starts_with_space : String → Bool
unfolding is_space
starts_with_space String.[] = false
starts_with_space (String.◌∷◌ c s) = is_space (code c)

ends_with_space : String → Bool → Bool
unfolding is_space
ends_with_space String.[] last = last
ends_with_space (String.◌∷◌ c s) last = ends_with_space s (is_space (code c))

is_empty : String → Bool
is_empty String.[] = true
is_empty (String.◌∷◌ c s) = false

-- `value and value.strip() == value`
unfoldable pub is_canonical_text : String → Bool
unfolding starts_with_space ends_with_space is_empty
is_canonical_text s =
    not (is_empty s) && (not (starts_with_space s) && not (ends_with_space s false))

-- `re.fullmatch("[0-9a-f]{n}", value)`
unfoldable pub is_lower_hex : String → ℕ → Bool
is_lower_hex String.[] n = n == 0
is_lower_hex (String.◌∷◌ c s) n =
    ((leb 48 (code c) && leb (code c) 57) || (leb 97 (code c) && leb (code c) 102))
    && (leb 1 n && is_lower_hex s (n - 1))
