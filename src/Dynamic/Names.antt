-- ===== src/Dynamic/Names.antt =====
-- The regular expressions `_PARAMETER_NAME` and `_INTEGER` of
-- app/services/query_engine/dynamic_parameters.py, and `int` of such a text.
use data_api.Prelude.{
  ℕ, ◌+◌, ◌-◌, ◌*◌, Bool, false, not, ◌&&◌, ◌||◌, Option, none, some, [], ◌∷◌, leb, ltb, ◌==◌, all,
  is_empty, length, if◌then◌else◌,
}
use data_api.Prelude.Int.{ℤ, pos, neg}
use data_api.Text.{Text}

-- [0-9]
unfoldable pub is_ascii_digit : ℕ → Bool
is_ascii_digit c = leb b'0' c && leb c b'9'

-- [A-Za-z_]
unfoldable pub is_name_start : ℕ → Bool
is_name_start c = (leb b'A' c && leb c b'Z') || (leb b'a' c && leb c b'z') || c == b'_'

-- [A-Za-z_][A-Za-z0-9_]*\Z
unfoldable pub is_parameter_name : Text → Bool
unfolding is_ascii_digit is_name_start
is_parameter_name [] = false
is_parameter_name (c ∷ s) = is_name_start c && all (λ d. is_name_start d || is_ascii_digit d) s

-- [0-9]+
unfoldable pub is_digits : Text → Bool
unfolding is_ascii_digit
is_digits s = not (is_empty s) && all is_ascii_digit s

-- [+-]?[0-9]+\Z
unfoldable pub is_integer : Text → Bool
unfolding is_digits
is_integer [] = false
is_integer (c ∷ s) = if c == b'+' || c == b'-' then is_digits s else is_digits (c ∷ s)

-- the value of decimal digits behind `n`
unfoldable pub digits_value : ℕ → Text → ℕ
digits_value n [] = n
digits_value n (c ∷ s) = digits_value (n * 10 + (c - b'0')) s

-- `int` refuses more digits than this
abbrev pub max_str_digits : ℕ
max_str_digits = 4300

-- `int` of digits, where `none` is a ValueError
unfoldable pub int_of_digits : Text → Option ℕ
unfolding digits_value
int_of_digits s = if ltb max_str_digits (length s) then none else some (digits_value 0 s)

abbrev pub map_int : (ℕ → ℤ) → Option ℕ → Option ℤ
map_int f none = none
map_int f (some n) = some (f n)

-- `int` of a text that `_INTEGER` matches
unfoldable pub int_of_text : Text → Option ℤ
unfolding int_of_digits
int_of_text [] = none
int_of_text (c ∷ s) =
    if c == b'-'
    then map_int neg (int_of_digits s)
    else if c == b'+'
    then map_int pos (int_of_digits s)
    else map_int pos (int_of_digits (c ∷ s))
