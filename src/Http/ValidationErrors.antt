-- ===== src/Http/ValidationErrors.antt =====
-- The details of validation errors, app/core/exceptions.py: `validation_error_details` and what it calls.
use data_api.Prelude.{Bool, not, Option, none, some, List, [], ◌∷◌, map, keep, any, if◌then◌else◌}
use data_api.Text.{Text, codes, eq_text}
use data_api.Http.Messages.{
  Location, tuple, listed, single, RawError, FormattedError, Details, errors, Platform,
}
use data_api.Text.Laws.{join}
use data_api.Value.{Value}

module _ (env : Platform) where
  abbrev pub normalize_error_location : Location → List Value
  normalize_error_location (tuple parts) = parts
  normalize_error_location (listed parts) = parts
  normalize_error_location (single value) = if env.is_true value then value ∷ [] else []

  abbrev pub sources : List Text
  sources = codes "body" ∷ codes "query" ∷ codes "path" ∷ codes "header" ∷ codes "cookie" ∷ []

  abbrev pub is_source : Text → Bool
  is_source part = any (λ s. eq_text part s) sources

  -- str(error.get(key, default))
  abbrev pub text_or : Text → Option Value → Text
  text_or default none = default
  text_or default (some value) = env.decode value

  abbrev pub location_or_empty : Option Location → Location
  location_or_empty none = tuple []
  location_or_empty (some loc) = loc

  abbrev pub field_of : List Text → Text
  field_of [] = codes "request"
  field_of (part ∷ parts) = join 46 (part ∷ parts)

  unfoldable pub format_validation_error : RawError → FormattedError
  unfolding eq_text
  format_validation_error e =
      let loc = normalize_error_location (location_or_empty e.loc) in
      record {
        field = field_of (keep (λ part. not (is_source part)) (map env.decode loc));
        message = text_or (codes "Invalid value") e.msg;
        type = text_or (codes "value_error") e.type;
        input = e.input;
      }

  unfoldable pub validation_error_details : List RawError → Details
  unfolding format_validation_error
  validation_error_details es = errors (map format_validation_error es)
