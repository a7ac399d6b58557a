-- ===== src/Dynamic/Parameters/Cast.antt =====
-- `_cast_value`, `_cast_string_list` and `validate_default` of
-- app/services/query_engine/dynamic_parameters.py.
pub mod Laws
use data_api.Prelude.{
  ℕ, ◌/◌, ◌%◌, ◌^◌, Bool, true, false, not, ◌&&◌, ◌||◌, Option, none, some, List, [], ◌∷◌, ◌++◌,
  map, any, is_empty, ◌==◌, if◌then◌else◌,
}
use data_api.Prelude.Int.{ℤ}
use data_api.Text.{Text, codes, eq_text, split, strip}
use data_api.Dynamic.Names.{is_integer, int_of_text}
use data_api.Dynamic.Parameters.{
  DynamicParameterType, string, integer, boolean, string_list, type_value,
  DynamicParameterDefinition,
}
use data_api.Dynamic.Parameters.Errors.{not_valid, only_strings, non_empty_strings}
use data_api.Errors.{
  Exc, value_error, type_error, overflow_error, app_error, Result, ok, err, ◌>>=◌, ◌>>◌, raise_if,
}
use data_api.Value.{Value, Values, str, of_values, to_values, is_null, Runtime}

-- math.isfinite: the exponent is not all ones
unfoldable pub is_finite : ℕ → Bool
is_finite bits = not (bits / 2 ^ 52 % 2 ^ 11 == 2047)

-- the parts of one value: [part.strip() for part in value.split(",")]
unfoldable pub parts : Text → List Text
parts value = map strip (split b',' value)

-- the loop of `_cast_string_list`, with its `result`
unfoldable pub collect_strings : Text → List Text → List Value → Result (List Text)
unfolding parts
collect_strings name result [] = ok result
collect_strings name result (str s ∷ values) = collect_strings name (result ++ parts s) values
collect_strings name result (value ∷ values) = err (only_strings name)

unfoldable pub cast_string_list : List Value → Text → Result (List Text)
unfolding collect_strings
cast_string_list values name = do
  result ← collect_strings name [] values
  raise_if (is_empty result || any is_empty result) (non_empty_strings name)
  ok result

abbrev pub or_raise : {A : Type 0} → Option A → Exc → Result A
or_raise none e = err e
or_raise (some a) e = ok a

-- `float(value)` is `converted`
unfoldable pub finite_float : Result ℕ → Result Value
unfolding is_finite
finite_float converted = do
  bits ← converted
  if is_finite bits then ok (Value.float bits) else err value_error

unfoldable pub cast_boolean : Text → Result Value
cast_boolean normalized =
    if eq_text normalized (codes "true") || eq_text normalized (codes "1")
    then ok (Value.bool true)
    else if eq_text normalized (codes "false") || eq_text normalized (codes "0")
    then ok (Value.bool false)
    else err value_error

abbrev pub str_list : List Text → Value
str_list ts = Value.list (to_values (map str ts))

-- the body of the `try` of `_cast_value`
unfoldable pub try_cast : Runtime → DynamicParameterType → Value → Text → Result Value
unfolding cast_string_list finite_float cast_boolean
try_cast rt string (str s) name = ok (str s)
try_cast rt integer (Value.int z) name = ok (Value.int z)
try_cast rt integer (str s) name =
    if is_integer s
    then (do z ← or_raise (int_of_text s) value_error; ok (Value.int z))
    else err value_error
try_cast rt DynamicParameterType.float (str s) name =
    finite_float (or_raise (rt.float_of_text s) value_error)
try_cast rt DynamicParameterType.float (Value.int z) name =
    finite_float (or_raise (rt.float_of_int z) overflow_error)
try_cast rt DynamicParameterType.float (Value.float bits) name = finite_float (ok bits)
try_cast rt boolean (Value.bool b) name = ok (Value.bool b)
try_cast rt boolean (str s) name = cast_boolean (rt.casefold s)
try_cast rt DynamicParameterType.date (Value.date d) name = ok (Value.date d)
try_cast rt DynamicParameterType.date (str s) name = do
  d ← or_raise (rt.date_of_iso s) value_error
  ok (Value.date d)
try_cast rt DynamicParameterType.datetime (Value.datetime d) name = ok (Value.datetime d)
try_cast rt DynamicParameterType.datetime (str s) name = do
  d ← or_raise (rt.datetime_of_iso s) value_error
  ok (Value.datetime d)
try_cast rt string_list (Value.list vs) name = do
  ts ← cast_string_list (of_values vs) name
  ok (str_list ts)
try_cast rt type value name = err value_error

-- `except (TypeError, ValueError)`
unfoldable pub rescue : DynamicParameterType → Text → Result Value → Result Value
rescue type name (err value_error) = err (not_valid name (type_value type))
rescue type name (err type_error) = err (not_valid name (type_value type))
rescue type name result = result

unfoldable pub cast_value : Runtime → DynamicParameterType → Value → Text → Result Value
unfolding try_cast rescue
cast_value rt type value name = rescue type name (try_cast rt type value name)

-- `except DynamicParameterError`: those are the `AppError`s that a cast raises
abbrev pub as_value_error : {A : Type 0} → Result Value → A → Result A
as_value_error (ok v) a = ok a
as_value_error (err (app_error e)) a = err value_error
as_value_error (err e) a = err e

unfoldable pub validate_default :
    Runtime → DynamicParameterDefinition → Result DynamicParameterDefinition
unfolding cast_value
validate_default rt self =
    if self.required && not (is_null self.default)
    then err value_error
    else if not self.required && not (is_null self.default)
    then as_value_error (cast_value rt self.type self.default (codes "default")) self
    else ok self
