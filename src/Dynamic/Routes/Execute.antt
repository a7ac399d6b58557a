-- ===== src/Dynamic/Routes/Execute.antt =====
-- `execute_route`, `_map_pii` and `_deserialize_definitions` of
-- app/services/query_engine/dynamic_routes.py, with the responses of app/schemas/common.py.
pub mod ReadOnly
use data_api.Prelude.{
  ℕ, ◌+◌, ◌-◌, ◌*◌, Bool, true, false, Option, none, some, String, List, [], ◌∷◌, ◌++◌,
  if◌then◌else◌,
}
use data_api.Prelude.Int.{ℤ, pos}
use data_api.Text.{Text, codes}
use data_api.Dict.{Dict, put}
use data_api.Dynamic.Pagination.{
  ResponseType, paginated, rows_only, Extracted, PaginationMeta, extract_pagination, extract_total,
  total_pages,
}
use data_api.Dynamic.Parameters.{DynamicParameterDefinition}
use data_api.Dynamic.Parameters.Contract.{validate_parameter_contract}
use data_api.Dynamic.Parameters.Statement.{BoundStatement, build_bound_statement}
use data_api.Dynamic.Parameters.Values.{QueryParams, query_params, cast_parameter_values}
use data_api.Dynamic.Routes.{Env, execute_on, or_not_found}
use data_api.Dynamic.Safety.{Dialect, dynamic_sql_error, ValidatedSql, validate}
use data_api.Dynamic.Store.{
  PiiType, account_id, customer_id, DynamicRoute, api_path, M, get_by_route,
}
use data_api.Errors.{Exc, lit, runtime_error, unexpected, Result, ok, err}
use data_api.Pii.Mapper.{Row, MissingPiiMapping, map_pii_fields}
use data_api.Pii.Rules.{PiiColumnRule, transform_by_token_length}
use data_api.Session.{◌>>=◌, ◌>>◌, pure, lift}
use data_api.Value.{Value, int}

pub data Response : Type 0 where
  data_rows : List Row → List MissingPiiMapping → Response
  paginated_rows : List Row → PaginationMeta → List MissingPiiMapping → Response

-- the value of the StrEnum
abbrev pub pii_value : PiiType → Text
pii_value account_id = codes "account_id"
pii_value customer_id = codes "customer_id"

unfoldable pub count_sql : Text → Text
count_sql canonical_sql =
    codes "SELECT COUNT(*) AS total FROM (" ++ (canonical_sql ++ codes ") AS dynamic_route_count")

unfoldable pub paginated_sql : Text → Text
paginated_sql canonical_sql =
    codes "SELECT * FROM ("
    ++ (canonical_sql
        ++ codes ") AS dynamic_route_data LIMIT :__dynamic_page_size OFFSET :__dynamic_offset")

-- the parameters of the paginated statement
unfoldable pub paginated_parameters : Dict Value → ℕ → ℕ → Dict Value
paginated_parameters parameters page page_size =
    put (put parameters (codes "__dynamic_page_size") (int (pos page_size)))
      (codes "__dynamic_offset") (int (pos ((page - 1) * page_size)))

module _ (env : Env) where
  open env use {sqlglot, runtime, Json, model_validate, token_to_value}

  abbrev invalid_contract : Exc
  invalid_contract =
      dynamic_sql_error "dynamic_sql_invalid_parameter_contract"
        (lit "Stored parameter contract is invalid" ∷ [])

  unfoldable pub deserialize_definitions : Dict Json → Result (Dict DynamicParameterDefinition)
  deserialize_definitions [] = ok []
  deserialize_definitions ((name, stored) ∷ values) = elim (model_validate stored) [
    | none ↦ err invalid_contract
    | some d ↦ elim (deserialize_definitions values) [ err e ↦ err e | ok ds ↦ ok ((name, d) ∷ ds) ]
  ]

  abbrev rules : PiiType → Dict PiiColumnRule
  rules t = (pii_value t, record { transformer = transform_by_token_length runtime }) ∷ []

  unfoldable pub map_pii :
      DynamicRoute Json
      → List Row
      → Option PiiType
      → Option (Dict Text)
      → Result (List Row × List MissingPiiMapping)
  map_pii route rows none cache = ok (rows, [])
  map_pii route rows (some t) none = err runtime_error
  map_pii route rows (some t) (some cache) = map_pii_fields cache rows (record {
    route_name = api_path route;
    statement = route.canonical_sql;
    column_pii_rules = rules t;
  })

  -- the branch of `execute_route` for a paginated response
  unfoldable pub execute_paginated :
      DynamicRoute Json
      → Text
      → Dict DynamicParameterDefinition
      → Dict Value
      → ℕ
      → ℕ
      → M Json Response
  unfolding execute_on map_pii
  execute_paginated route canonical_sql definitions parameters page page_size = do
    count_statement ← lift (build_bound_statement (count_sql canonical_sql) definitions)
    count_rows ← execute_on env route.db_type count_statement parameters
    total ← lift (extract_total runtime count_rows)
    paginated_statement ← lift (build_bound_statement (paginated_sql canonical_sql) definitions)
    rows ←
        execute_on env route.db_type paginated_statement
          (paginated_parameters parameters page page_size)
    mapped ← lift (map_pii route rows route.pii_type token_to_value)
    pure (
        paginated_rows mapped.0
          (record {
            total = total;
            page = page;
            page_size = page_size;
            total_pages = total_pages total page_size;
          })
          mapped.1)

  -- the branch for plain rows
  unfoldable pub execute_rows : DynamicRoute Json → BoundStatement → Dict Value → M Json Response
  unfolding execute_on map_pii
  execute_rows route statement parameters = do
    rows ← execute_on env route.db_type statement parameters
    mapped ← lift (map_pii route rows route.pii_type token_to_value)
    pure (data_rows mapped.0 mapped.1)

  -- `if route.response_type is paginated`, with its assertion
  unfoldable pub execute_as :
      DynamicRoute Json
      → Text
      → Dict DynamicParameterDefinition
      → BoundStatement
      → Dict Value
      → ResponseType
      → Option (ℕ × ℕ)
      → M Json Response
  unfolding execute_paginated execute_rows
  execute_as route canonical_sql definitions statement parameters paginated
        (some (page, page_size)) =
      execute_paginated route canonical_sql definitions parameters page page_size
  execute_as route canonical_sql definitions statement parameters paginated none =
      lift (err unexpected)
  execute_as route canonical_sql definitions statement parameters rows_only p =
      execute_rows route statement parameters

  unfoldable pub execute_route : Text → Text → QueryParams → M Json Response
  unfolding deserialize_definitions execute_as
  execute_route prefix path raw_params = do
    found ← get_by_route prefix path
    route ← lift (or_not_found env found)
    validated ← lift (validate sqlglot runtime route.canonical_sql route.db_type)
    definitions ← lift (deserialize_definitions route.parameter_definitions)
    lift (validate_parameter_contract validated.parameter_names definitions)
    extracted ← lift (extract_pagination runtime raw_params route.response_type)
    parameters ←
        lift (cast_parameter_values runtime definitions (query_params extracted.query_params))
    statement ← lift (build_bound_statement validated.canonical_sql definitions)
    execute_as route validated.canonical_sql definitions statement parameters route.response_type
        extracted.page_and_size
