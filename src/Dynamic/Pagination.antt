-- ===== src/Dynamic/Pagination.antt =====
-- `_extract_pagination`, `_parse_pagination_value` and `_extract_total` of
-- app/services/query_engine/dynamic_routes.py, with `PaginationMeta` of app/schemas/common.py.
pub mod Bounds
use data_api.Prelude.{
  ℕ, zero, suc, ◌+◌, ◌-◌, ◌*◌, ◌/◌, Bool, true, false, not, ◌&&◌, ◌||◌, Option, none, some, String,
  List, [], ◌∷◌, all, keep, is_empty, length, leb, ltb, if◌then◌else◌,
}
use data_api.Prelude.Int.{ℤ, pos, negsuc, neg}
use data_api.Text.{Text, codes, eq_text}
use data_api.Dict.{Dict}
use data_api.Dynamic.Names.{max_str_digits}
use data_api.Dynamic.Parameters.Errors.{not_a_pagination_value}
use data_api.Dynamic.Parameters.Values.{QueryParams, getlist}
use data_api.Errors.{Result, ok, err, ◌>>=◌, runtime_error, unexpected}
use data_api.Value.{Value, int, Runtime}

-- DynamicRouteResponseType
pub data ResponseType : Type 0 where
  paginated rows_only : ResponseType

-- s.isdigit()
unfoldable pub is_digit_text : Runtime → Text → Bool
is_digit_text rt s = not (is_empty s) && all rt.is_digit s

-- `int` of a text of digits, behind `n`: a digit without a decimal value is a ValueError
unfoldable pub decimal_value : Runtime → ℕ → Text → Option ℕ
decimal_value rt n [] = some n
decimal_value rt n (c ∷ s) = elim (rt.decimal c) [
  | none ↦ none
  | some d ↦ decimal_value rt (n * 10 + d) s
]

unfoldable pub int_of_digit_text : Runtime → Text → Option ℕ
unfolding decimal_value
int_of_digit_text rt s = if ltb max_str_digits (length s) then none else decimal_value rt 0 s

abbrev pub exceeds : ℕ → Option ℕ → Bool
exceeds value none = false
exceeds value (some maximum) = ltb maximum value

-- `if value < 1 or (maximum is not None and value > maximum): raise ValueError`
abbrev pub within : Option ℕ → Option ℕ → Option ℕ
within maximum none = none
within maximum (some value) = if ltb value 1 || exceeds value maximum then none else some value

-- the `try` of `_parse_pagination_value`, where `none` is a ValueError
unfoldable pub pagination_value : Runtime → Option ℕ → List Text → Option ℕ
unfolding is_digit_text int_of_digit_text
pagination_value rt maximum (v ∷ []) =
    if not (is_digit_text rt v) then none else within maximum (int_of_digit_text rt v)
pagination_value rt maximum values = none

abbrev pub or_invalid : Text → Option ℕ → Result ℕ
or_invalid name none = err (not_a_pagination_value name)
or_invalid name (some n) = ok n

unfoldable pub parse_pagination_value : Runtime → QueryParams → Text → ℕ → Option ℕ → Result ℕ
unfolding pagination_value
parse_pagination_value rt raw_params name default maximum =
    let values = getlist raw_params name in
    if is_empty values then ok default else or_invalid name (pagination_value rt maximum values)

abbrev pub is_page_key : Text → Bool
is_page_key name = eq_text name (codes "page") || eq_text name (codes "page_size")

-- The parameters that are left, and the page with its size where the response is paginated.
pub record Extracted : Type 0 where
  pub query_params : QueryParams
  pub page_and_size : Option (ℕ × ℕ)

unfoldable pub extract_pagination : Runtime → QueryParams → ResponseType → Result Extracted
unfolding parse_pagination_value
extract_pagination rt raw_params rows_only =
    ok (record { query_params = raw_params; page_and_size = none })
extract_pagination rt raw_params paginated = do
  page ← parse_pagination_value rt raw_params (codes "page") 1 none
  page_size ← parse_pagination_value rt raw_params (codes "page_size") 100 (some 1000)
  ok (record {
    query_params = keep (λ item. not (is_page_key item.0)) raw_params;
    page_and_size = some (page, page_size);
  })

-- int(value)
abbrev int_value : Runtime → Value → Result ℤ
int_value rt (int z) = ok z
int_value rt v = elim (rt.int_of v) [ none ↦ err unexpected | some z ↦ ok z ]

-- the loop over one row
unfoldable pub find_total : Runtime → Dict Value → Result ℤ
find_total rt [] = err runtime_error
find_total rt ((name, value) ∷ row) =
    let rest = find_total rt row in
    if eq_text (rt.casefold name) (codes "total") then int_value rt value else rest

unfoldable pub extract_total : Runtime → List (Dict Value) → Result ℤ
unfolding find_total
extract_total rt (row ∷ []) = find_total rt row
extract_total rt rows = err runtime_error

-- (total + page_size - 1) // page_size, rounded down also below zero
unfoldable pub total_pages : ℤ → ℕ → ℤ
total_pages (pos total) page_size = pos ((total + page_size - 1) / page_size)
total_pages (negsuc n) page_size =
    if leb (n + 2) page_size
    then pos ((page_size - (n + 2)) / page_size)
    else neg ((n + 2 - page_size + page_size - 1) / page_size)

pub record PaginationMeta : Type 0 where
  pub total : ℤ
  pub page : ℕ
  pub page_size : ℕ
  pub total_pages : ℤ
