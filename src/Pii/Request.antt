-- ===== src/Pii/Request.antt =====
-- app/schemas/power_bi.py: the validators of a Power BI request.
pub mod Filters
use data_api.Prelude.{
  ℕ, ltb, Bool, true, false, Option, none, some, List, [], ◌∷◌, ◌++◌, map, keep, is_empty, not,
}
use data_api.Text.{Text, split, strip}
use data_api.Errors.{Result, ok, err, ◌>>=◌, ◌>>◌, raise_if, value_error, validation_error}
use data_api.Pii.Services.{DeeplinkRequest}
use data_api.Value.{Value, null, str, list, of_values}

-- [item.strip() for item in value.split(",") if item.strip()]
unfoldable pub filter_items : Text → List Text
unfolding split strip
filter_items value = keep (λ item. not (is_empty item)) (map strip (split b',' value))

unfoldable pub split_filter_values : List Value → Result (List Text)
unfolding filter_items
split_filter_values [] = ok []
split_filter_values (str value ∷ values) = do
  normalized ← split_filter_values values
  ok (filter_items value ++ normalized)
split_filter_values (value ∷ values) = err value_error

unfoldable pub normalize_filter_values : Value → Result (List Text)
unfolding split_filter_values
normalize_filter_values null = ok []
normalize_filter_values (str value) = split_filter_values (str value ∷ [])
normalize_filter_values (list values) = split_filter_values (of_values values)
normalize_filter_values value = err value_error

-- what `model_validate` is given
pub record RequestData : Type 0 where
  pub start_date : ℕ
  pub end_date : ℕ
  pub limit : Option ℕ
  pub segmentation : Value
  pub user_agent : Value
  pub customer_id : Value

-- ge=1
abbrev pub is_below_one : Option ℕ → Bool
is_below_one none = false
is_below_one (some limit) = ltb limit 1

-- The fields, and then the order of the dates.
unfoldable pub check_request : RequestData → Result DeeplinkRequest
unfolding normalize_filter_values
check_request raw = do
  raise_if (is_below_one raw.limit) value_error
  segmentation ← normalize_filter_values raw.segmentation
  user_agent ← normalize_filter_values raw.user_agent
  customer_id ← normalize_filter_values raw.customer_id
  raise_if (ltb raw.end_date raw.start_date) value_error
  ok (record {
    start_date = raw.start_date;
    end_date = raw.end_date;
    limit = raw.limit;
    segmentation_filters = segmentation;
    user_agent_filters = user_agent;
    customer_ids = customer_id;
  })

-- any error is a ValidationError
abbrev pub as_validation_error : {A : Type 0} → Result A → Result A
as_validation_error (ok a) = ok a
as_validation_error (err e) = err validation_error

unfoldable pub validate_request : RequestData → Result DeeplinkRequest
unfolding check_request
validate_request raw = as_validation_error (check_request raw)
