-- ===== src/Dynamic/Request.antt =====
-- The validators of app/schemas/dynamic_route.py, on a request whose fields have their types.
pub mod Constraints
use data_api.Prelude.{
  any, all, not, ◌++◌, ◌&&◌, ◌==◌, length, false, [], ◌∷◌, ◌||◌, true, leb, is_empty, ℕ, Bool, List,
}
use data_api.Text.{split, ends_with, starts_with, eq_text, strip, codes, Text}
use data_api.Dict.{keys, Dict}
use data_api.Dynamic.Names.{is_parameter_name, is_ascii_digit, is_name_start}
use data_api.Dynamic.Pagination.{rows_only, paginated, ResponseType}
use data_api.Dynamic.Parameters.{DynamicParameterDefinition}
use data_api.Dynamic.Parameters.Cast.{validate_default}
use data_api.Dynamic.Routes.{WriteRequest}
use data_api.Errors.{raise_if, ◌>>◌, ◌>>=◌, value_error, validation_error, ok, err, Result}
use data_api.Text.Sort.{elem}
use data_api.Value.{Runtime}

-- [a-zA-Z0-9_.-]
unfoldable pub is_prefix_char : ℕ → Bool
unfolding is_name_start is_ascii_digit
is_prefix_char c = is_name_start c || is_ascii_digit c || c == b'.' || c == b'-'

abbrev pub reserved_prefixes : List Text
reserved_prefixes = codes "dynamic-routes" ∷ []

abbrev pub pagination_parameters : List Text
pagination_parameters =
    codes "page" ∷ codes "page_size" ∷ codes "__dynamic_page_size" ∷ codes "__dynamic_offset" ∷ []

-- `Field(min_length=low, max_length=high)`
abbrev pub has_length : ℕ → ℕ → Text → Bool
has_length low high s = leb low (length s) && leb (length s) high

unfoldable pub normalize_prefix : Runtime → Text → Text
normalize_prefix rt value = rt.lower (strip value)

unfoldable pub validate_prefix : Text → Result Text
unfolding is_prefix_char elem
validate_prefix value = do
  raise_if (is_empty value || not (all is_prefix_char value)) value_error
  raise_if (elem value reserved_prefixes) value_error
  ok value

abbrev pub is_invalid_segment : Text → Bool
is_invalid_segment segment =
    is_empty segment || eq_text segment (codes ".") || eq_text segment (codes "..")

unfoldable pub validate_path : Text → Result Text
validate_path value = do
  raise_if (not (eq_text value (strip value))) value_error
  raise_if (starts_with value (codes "/") || ends_with value (codes "/")) value_error
  raise_if (any is_invalid_segment (split b'/' value)) value_error
  ok value

unfoldable pub validate_parameter_names :
    Dict DynamicParameterDefinition → Result (Dict DynamicParameterDefinition)
validate_parameter_names value = do
  raise_if (any (λ name. not (is_parameter_name name)) (keys value)) value_error
  ok value

abbrev pub is_paginated : ResponseType → Bool
is_paginated paginated = true
is_paginated rows_only = false

unfoldable pub validate_paginated_parameter_names : WriteRequest → Result WriteRequest
unfolding elem
validate_paginated_parameter_names self = do
  raise_if
      (is_paginated self.response_type
        && any (λ name. elem name (keys self.params)) pagination_parameters)
      value_error
  ok self

-- A ValueError of a definition's own validator makes the request invalid; another exception leaves
-- pydantic as it is.
abbrev pub is_valid : Result DynamicParameterDefinition → Result Bool
is_valid (ok definition) = ok true
is_valid (err value_error) = ok false
is_valid (err e) = err e

-- the validators of the definitions, all of which run
unfoldable pub definitions_valid : Runtime → Dict DynamicParameterDefinition → Result Bool
definitions_valid rt [] = ok true
definitions_valid rt ((name, definition) ∷ definitions) = do
  first ← is_valid (validate_default rt definition)
  rest ← definitions_valid rt definitions
  ok (first && rest)

abbrev pub is_ok : {A : Type 0} → Result A → Bool
is_ok (ok a) = true
is_ok (err e) = false

-- the validators of the fields
unfoldable pub fields_valid : WriteRequest → Bool
unfolding validate_prefix validate_path validate_parameter_names
fields_valid payload =
    has_length 3 50 payload.prefix
    && is_ok (validate_prefix payload.prefix)
    && has_length 1 500 payload.path
    && is_ok (validate_path payload.path)
    && not (is_empty payload.sql)
    && is_ok (validate_parameter_names payload.params)

-- The request as pydantic leaves it: one ValidationError for all the fields that fail.
unfoldable pub validate_write_request : Runtime → WriteRequest → Result WriteRequest
unfolding normalize_prefix fields_valid validate_paginated_parameter_names definitions_valid
validate_write_request rt payload = do
  let normalized : WriteRequest = record payload { prefix = normalize_prefix rt payload.prefix }
  valid ← definitions_valid rt payload.params
  raise_if (not (valid && fields_valid normalized)) validation_error
  raise_if (not (is_ok (validate_paginated_parameter_names normalized))) validation_error
  ok normalized
