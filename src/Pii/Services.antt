-- ===== src/Pii/Services.antt =====
-- app/services/query_engine/base_service.py and power_bi_service.py, with the conditions of
-- power_bi_query.py. The Trino client is a parameter, a function from the statement to rows or to an
-- exception.
pub mod Filter
use data_api.Prelude.{
  map, ◌++◌, some, none, is_empty, cons_if, ◌∷◌, ℕ, if◌then◌else◌, [], Option, List,
}
use data_api.Text.{codes, Text}
use data_api.Dict.{Dict}
use data_api.Errors.{◌>>=◌, Result}
use data_api.Pii.AccountMap.{AccountMapInMemory}
use data_api.Pii.Mapper.{Row, MissingPiiMapping, map_pii_fields}
use data_api.Pii.Rules.{QuerySpec, power_bi_account_pii_rules, users_pii_rules}
use data_api.Text.Sort.{elem}
use data_api.Value.{Runtime}

abbrev pub no_match : Text
no_match = codes "__NO_MATCH__"

-- the comprehension over `value_to_token`
unfoldable pub matching_tokens : Runtime → List Text → Dict Text → List Text
unfolding elem
matching_tokens rt lower_values [] = []
matching_tokens rt lower_values ((mapped_value, token) ∷ cache) =
    cons_if (elem (rt.casefold mapped_value) lower_values) token
      (matching_tokens rt lower_values cache)

abbrev pub or_no_match : List Text → List Text
or_no_match [] = no_match ∷ []
or_no_match (t ∷ ts) = t ∷ ts

-- `lower_values` is a set, which is tested for members only.
unfoldable pub get_tokens_by_original_values : Runtime → AccountMapInMemory → List Text → List Text
unfolding matching_tokens
get_tokens_by_original_values rt cache original_values =
    if is_empty original_values
    then []
    else or_no_match (matching_tokens rt (map rt.casefold original_values) cache.value_to_token)

-- The conditions of the WHERE clause.
pub data Condition : Type 0 where
  key_is : Text → Condition
  bank_method_is_deeplink : Condition
  date_between : ℕ → ℕ → Condition
  status_is : Text → Condition
  bank_name_in : List Text → Condition
  device_in : List Text → Condition
  account_id_in : List Text → Condition

-- The statement: its conditions and its limit. What it selects is fixed.
pub record DeeplinkQuery : Type 0 where
  pub conditions : List Condition
  pub limit : Option ℕ

abbrev pub status_condition : Option Text → List Condition
status_condition none = []
status_condition (some status) = status_is status ∷ []

-- `if filters: conditions.append(...)`
abbrev pub filter_condition : (List Text → Condition) → List Text → List Condition
filter_condition condition [] = []
filter_condition condition (f ∷ fs) = condition (f ∷ fs) ∷ []

unfoldable pub build_power_bi_deeplink_query :
    Runtime
    → Text
    → ℕ
    → ℕ
    → List Text
    → List Text
    → List Text
    → Option ℕ
    → Option Text
    → DeeplinkQuery
build_power_bi_deeplink_query rt event_key start_date end_date segmentation user_agent account_ids
      limit status =
    record {
      conditions =
          (key_is event_key ∷ bank_method_is_deeplink ∷ date_between start_date end_date ∷ [])
          ++ (status_condition status
              ++ (filter_condition bank_name_in (map rt.casefold segmentation)
                  ++ (filter_condition device_in (map rt.casefold user_agent)
                      ++ filter_condition account_id_in account_ids)));
      limit = limit;
    }

abbrev pub Rows : Type 0
Rows = List Row × List MissingPiiMapping

-- What both methods do with a spec: execute its statement and map the rows.
unfoldable pub run_spec :
    {S : Type 0} → (S → Result (List Row)) → Dict Text → QuerySpec S → Result Rows
run_spec execute token_to_value spec = do
  rows ← execute spec.statement
  map_pii_fields token_to_value rows spec

-- The arguments of both deeplink methods.
pub record DeeplinkRequest : Type 0 where
  pub start_date : ℕ
  pub end_date : ℕ
  pub limit : Option ℕ
  pub segmentation_filters : List Text
  pub user_agent_filters : List Text
  pub customer_ids : List Text

module _ (rt : Runtime) (cache : AccountMapInMemory) where
  unfoldable pub deeplink_1_spec : DeeplinkRequest → QuerySpec DeeplinkQuery
  unfolding get_tokens_by_original_values build_power_bi_deeplink_query power_bi_account_pii_rules
  deeplink_1_spec r = record {
    route_name = codes "power_bi.deeplink_1";
    statement =
        build_power_bi_deeplink_query rt (codes "topup_result") r.start_date r.end_date
          r.segmentation_filters r.user_agent_filters
          (get_tokens_by_original_values rt cache r.customer_ids) r.limit
          (some (codes "processing"));
    column_pii_rules = power_bi_account_pii_rules rt;
  }

  unfoldable pub deeplink_2_spec : DeeplinkRequest → QuerySpec DeeplinkQuery
  unfolding get_tokens_by_original_values build_power_bi_deeplink_query power_bi_account_pii_rules
  deeplink_2_spec r = record {
    route_name = codes "power_bi.deeplink_2";
    statement =
        build_power_bi_deeplink_query rt (codes "topup_bank_app") r.start_date r.end_date
          r.segmentation_filters r.user_agent_filters
          (get_tokens_by_original_values rt cache r.customer_ids) r.limit none;
    column_pii_rules = power_bi_account_pii_rules rt;
  }

  unfoldable pub deeplink_1 : (DeeplinkQuery → Result (List Row)) → DeeplinkRequest → Result Rows
  unfolding deeplink_1_spec run_spec
  deeplink_1 execute r = run_spec execute cache.token_to_value (deeplink_1_spec r)

  unfoldable pub deeplink_2 : (DeeplinkQuery → Result (List Row)) → DeeplinkRequest → Result Rows
  unfolding deeplink_2_spec run_spec
  deeplink_2 execute r = run_spec execute cache.token_to_value (deeplink_2_spec r)
