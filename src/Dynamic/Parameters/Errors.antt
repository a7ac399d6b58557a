-- ===== src/Dynamic/Parameters/Errors.antt =====
-- The `DynamicParameterError`s of app/services/query_engine/dynamic_parameters.py.
use data_api.Prelude.{String, List, [], ◌∷◌}
use data_api.Text.{Text, codes}
use data_api.Errors.{Piece, lit, var, Detail, one, many, Exc, app_error}

abbrev pub dynamic_parameter_error : String → List Piece → List (String × Detail) → Exc
dynamic_parameter_error code message details =
    app_error (record { status_code = 422; code = code; message = message; details = details })

abbrev pub invalid_name : List Text → Exc
invalid_name names =
    dynamic_parameter_error "dynamic_parameter_invalid_name"
      (lit "Parameter names must be ASCII identifiers" ∷ []) (("invalid_names", many names) ∷ [])

abbrev pub contract_mismatch : List Text → List Text → Exc
contract_mismatch missing unused =
    dynamic_parameter_error "dynamic_parameter_contract_mismatch"
      (lit "SQL placeholders and parameter definitions must match exactly" ∷ [])
      (("missing_definitions", many missing) ∷ ("unused_definitions", many unused) ∷ [])

abbrev pub unknown_parameters : List Text → Exc
unknown_parameters names =
    dynamic_parameter_error "dynamic_parameter_unknown"
      (lit "Request contains undeclared parameters" ∷ []) (("parameters", many names) ∷ [])

abbrev pub missing_parameter : Text → Exc
missing_parameter name =
    dynamic_parameter_error "dynamic_parameter_missing"
      (lit "Required parameter '" ∷ var name ∷ lit "' is missing" ∷ [])
      (("parameter", one name) ∷ [])

abbrev pub supplied_once : Text → Exc
supplied_once name =
    dynamic_parameter_error "dynamic_parameter_invalid"
      (lit "Parameter '" ∷ var name ∷ lit "' must be supplied once" ∷ [])
      (("parameter", one name) ∷ [])

abbrev pub not_valid : Text → String → Exc
not_valid name expected =
    dynamic_parameter_error "dynamic_parameter_invalid"
      (lit "Parameter '" ∷ var name ∷ lit "' is not a valid " ∷ lit expected ∷ [])
      (("parameter", one name) ∷ ("expected_type", one (codes expected)) ∷ [])

abbrev pub only_strings : Text → Exc
only_strings name =
    dynamic_parameter_error "dynamic_parameter_invalid"
      (lit "Parameter '" ∷ var name ∷ lit "' must contain only strings" ∷ [])
      (("parameter", one name) ∷ [])

abbrev pub non_empty_strings : Text → Exc
non_empty_strings name =
    dynamic_parameter_error "dynamic_parameter_invalid"
      (lit "Parameter '" ∷ var name ∷ lit "' must contain non-empty strings" ∷ [])
      (("parameter", one name) ∷ [])

abbrev pub not_a_pagination_value : Text → Exc
not_a_pagination_value name =
    dynamic_parameter_error "dynamic_parameter_invalid"
      (lit "Parameter '" ∷ var name ∷ lit "' is not a valid pagination value" ∷ [])
      (("parameter", one name) ∷ [])
