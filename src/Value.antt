-- ===== src/Value.antt =====
-- The Python values that pass through the program (rows, request parameters), and the parts of the
-- Python runtime that work by tables of Unicode or by number formats, as parameters.
use data_api.Prelude.{ℕ, Bool, true, false, Option, List, [], ◌∷◌}
use data_api.Prelude.Int.{ℤ}
use data_api.Text.{Text}

-- A `float` is its 64 bits; a `date` and a `datetime` are their positions on the time line; any
-- other object (a `dict`, a `Decimal`) is a number that tells it apart.
mutual
  pub data Value : Type 0 where
    null : Value
    bool : Bool → Value
    int : ℤ → Value
    float : ℕ → Value
    str : Text → Value
    date datetime : ℕ → Value
    list : Values → Value
    object : ℕ → Value

  pub data Values : Type 0 where
    nil : Values
    cons : Value → Values → Values

abbrev pub to_values : List Value → Values
to_values [] = nil
to_values (v ∷ vs) = cons v (to_values vs)

abbrev pub of_values : Values → List Value
of_values nil = []
of_values (cons v vs) = v ∷ of_values vs

abbrev pub is_null : Value → Bool
is_null null = true
is_null _ = false

-- repr: str(value) of a value that is no text. lower, casefold: the methods of `str`.
-- is_digit: `isdigit` of one character. decimal: the value of a character that `int` reads.
-- is_category_c: whether `unicodedata.category` begins with "C". date_of_iso and datetime_of_iso:
-- `fromisoformat`, where `none` is a ValueError. float_of_text: `float(str)`, likewise.
-- float_of_int: `float(int)`, where `none` is an OverflowError. int_of: `int(value)` of a value that
-- is no `int`, where `none` is an exception.
pub record Runtime : Type 0 where
  pub repr : Value → Text
  pub lower : Text → Text
  pub casefold : Text → Text
  pub is_digit : ℕ → Bool
  pub decimal : ℕ → Option ℕ
  pub is_category_c : ℕ → Bool
  pub date_of_iso : Text → Option ℕ
  pub datetime_of_iso : Text → Option ℕ
  pub float_of_text : Text → Option ℕ
  pub float_of_int : ℤ → Option ℕ
  pub int_of : Value → Option ℤ

-- str(value)
abbrev pub to_str : Runtime → Value → Text
to_str rt (str s) = s
to_str rt v = rt.repr v
