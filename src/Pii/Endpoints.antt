-- ===== src/Pii/Endpoints.antt =====
-- app/api/v1/endpoints/power_bi.py and data.py, with the users query of
-- app/services/query_engine/users_service.py and users_query.py: the requests for rows, and the entry in
-- the audit log that a background task writes behind the response.
pub mod Audited
use data_api.Prelude.{ℕ, ◌-◌, ltb, ◌||◌, Option, none, some, List, [], ◌∷◌, map}
use data_api.Prelude.Int.{pos}
use data_api.Text.{Text, codes}
use data_api.Access.Users.{User}
use data_api.Audit.{AuditLog, Trail, audit_missing_mappings}
use data_api.Dict.{Dict}
use data_api.Errors.{Exc, Result, ok, err, validation_error}
use data_api.Pii.AccountMap.{AccountMapInMemory}
use data_api.Pii.Mapper.{Row, MissingPiiMapping}
use data_api.Pii.Request.{RequestData, validate_request}
use data_api.Pii.Rules.{QuerySpec, users_pii_rules}
use data_api.Pii.Services.{DeeplinkQuery, DeeplinkRequest, Rows, run_spec, deeplink_1, deeplink_2}
use data_api.Session.{M, ◌>>=◌, ◌>>◌, pure, lift, raise_if}
use data_api.Trino.Identifiers.{quote_identifier_path}
use data_api.Value.{Value, int, str, list, to_values, Runtime}

-- The SQL text's table, offset and limit; the rest of it is fixed.
pub record UsersQuery : Type 0 where
  pub source_table : Result Text
  pub offset : ℕ
  pub limit : ℕ

unfoldable pub build_users_query : ℕ → ℕ → UsersQuery
unfolding quote_identifier_path
build_users_query limit offset = record {
  source_table = quote_identifier_path (codes "hive.default.users");
  offset = offset;
  limit = limit;
}

-- The query of a deeplink request; `none` stands for a parameter that is absent or null.
pub record DeeplinkParams : Type 0 where
  pub start_date : Option ℕ
  pub end_date : Option ℕ
  pub limit : Option ℕ
  pub segmentation : List Text
  pub user_agent : List Text
  pub customer_id : List Text

abbrev pub or_date : ℕ → Option ℕ → ℕ
or_date d none = d
or_date d (some e) = e

-- the day before
abbrev pub default_start_date : ℕ → ℕ
default_start_date today = today - 1

unfoldable pub request_data : ℕ → DeeplinkParams → RequestData
request_data today p = record {
  start_date = or_date (default_start_date today) p.start_date;
  end_date = or_date today p.end_date;
  limit = p.limit;
  segmentation = list (to_values (map str p.segmentation));
  user_agent = list (to_values (map str p.user_agent));
  customer_id = list (to_values (map str p.customer_id));
}

module _ (flush_error : AuditLog → Option Exc) (actor : User) where
  -- the response, and then the task, if there is one; its errors reach nobody
  unfoldable pub respond : Text → Dict Value → Result Rows → M Trail Rows
  unfolding audit_missing_mappings
  respond route_name request_parameters (err e) t = (err e, t)
  respond route_name request_parameters (ok (rows, [])) t = (ok (rows, []), t)
  respond route_name request_parameters (ok (rows, m ∷ ms)) t = (
    ok (rows, m ∷ ms),
    (audit_missing_mappings flush_error actor route_name request_parameters (m ∷ ms) t).1,
  )

  module _ (rt : Runtime) (cache : AccountMapInMemory) where
    -- model_dump: `request.model_dump(mode="json")` of pydantic
    module _ (execute : DeeplinkQuery → Result (List Row))
        (model_dump : DeeplinkRequest → Dict Value) (today : ℕ) where
      unfoldable pub get_deeplink_1 : DeeplinkParams → M Trail Rows
      unfolding validate_request request_data deeplink_1 respond
      get_deeplink_1 p = do
        request ← lift (validate_request (request_data today p))
        respond (codes "power_bi.deeplink_1") (model_dump request)
            (deeplink_1 rt cache execute request)

      unfoldable pub get_deeplink_2 : DeeplinkParams → M Trail Rows
      unfolding validate_request request_data deeplink_2 respond
      get_deeplink_2 p = do
        request ← lift (validate_request (request_data today p))
        respond (codes "power_bi.deeplink_2") (model_dump request)
            (deeplink_2 rt cache execute request)

    module _ (execute : UsersQuery → Result (List Row)) where
      unfoldable pub users_spec : ℕ → ℕ → QuerySpec UsersQuery
      unfolding build_users_query users_pii_rules
      users_spec limit offset = record {
        route_name = codes "data.users";
        statement = build_users_query limit offset;
        column_pii_rules = users_pii_rules rt;
      }

      unfoldable pub list_users : ℕ → ℕ → Result Rows
      unfolding users_spec run_spec
      list_users limit offset = run_spec execute cache.token_to_value (users_spec limit offset)

      unfoldable pub list_users_data : ℕ → ℕ → M Trail Rows
      unfolding list_users respond
      list_users_data limit offset = do
        raise_if (ltb limit 1 || ltb 1000 limit) validation_error
        respond (codes "data.users")
            ((codes "limit", int (pos limit)) ∷ (codes "offset", int (pos offset)) ∷ [])
            (list_users limit offset)
