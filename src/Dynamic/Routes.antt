-- ===== src/Dynamic/Routes.antt =====
-- DynamicRouteService of app/services/query_engine/dynamic_routes.py: the methods that write.
pub mod Execute
pub mod Atomic
use data_api.Prelude.{
  ℕ, Bool, true, false, not, ◌&&◌, Option, none, some, List, [], ◌∷◌, ◌++◌, ◌==◌, if◌then◌else◌,
}
use data_api.Text.{Text}
use data_api.Dict.{Dict, keys}
use data_api.Dynamic.Pagination.{ResponseType}
use data_api.Dynamic.Parameters.{DynamicParameterDefinition}
use data_api.Dynamic.Parameters.Contract.{validate_parameter_contract}
use data_api.Dynamic.Parameters.Statement.{BoundStatement, build_bound_statement}
use data_api.Dynamic.Parameters.Values.{RawValues, mapping, cast_parameter_values}
use data_api.Dynamic.Safety.{
  Dialect, trino, postgres, Sqlglot, ValidatedSql, validate, dynamic_sql_error,
}
use data_api.Dynamic.Store.{
  PiiType, DynamicRoute, Execution, World, M, get_by_id, get_by_route, create, update, delete,
  commit, rollback,
}
use data_api.Errors.{
  Exc, Piece, lit, app_error, integrity_error, runtime_error, conflict_error, not_found_error,
  Result, ok, err,
}
use data_api.Pii.Mapper.{Row}
use data_api.Session.{◌>>=◌, ◌>>◌, raise_if, pure, lift}
use data_api.Value.{Value, Runtime}

-- DynamicRouteWriteRequest, as its validators leave it
pub record WriteRequest : Type 0 where
  pub prefix : Text
  pub path : Text
  pub sql : Text
  pub params : Dict DynamicParameterDefinition
  pub description : Text
  pub db_type : Dialect
  pub pii_type : Option PiiType
  pub response_type : ResponseType
  pub lab_test : Bool
  pub lab_test_params : Dict Value

abbrev pub Client : Type 0
Client = BoundStatement → Dict Value → Result (List Row)

-- What the service is given and what stands outside the program: sqlglot and the runtime; pydantic's
-- `model_dump` and `model_validate` of a definition, whose JSON is of the type `Json`, and where
-- `none` is a ValidationError or a TypeError; the clients, the second of which may be missing; and
-- the map of the PII mapper, if there is one.
pub record Env : Type 1 where
  pub sqlglot : Sqlglot
  pub runtime : Runtime
  pub Json : Type 0
  pub model_dump : DynamicParameterDefinition → Json
  pub model_validate : Json → Option DynamicParameterDefinition
  pub trino_client : Client
  pub postgres_client : Option Client
  pub token_to_value : Option (Dict Text)

abbrev pub route_exists : Exc
route_exists = conflict_error "Dynamic route already exists" "dynamic_route_exists"

module _ {D A : Type 0} where
  abbrev pub settle : Result A → World D → Result A × World D
  settle (ok a) w = (ok a, w)
  settle (err integrity_error) w = (err route_exists, rollback w)
  settle (err e) w = (err e, rollback w)

  -- `except IntegrityError` and `except Exception` around a body that writes
  unfoldable pub rolling_back : M D A → M D A
  rolling_back body w = let (r, w') = body w in settle r w'

  abbrev pub settle_delete : Result A → World D → Result A × World D
  settle_delete (ok a) w = (ok a, w)
  settle_delete (err e) w = (err e, rollback w)

  -- `except Exception` of `delete_route`
  unfoldable pub rolling_back_delete : M D A → M D A
  rolling_back_delete body w = let (r, w') = body w in settle_delete r w'

abbrev pub is_some : {A : Type 0} → Option A → Bool
is_some none = false
is_some (some a) = true

module _ (env : Env) where
  open env use {sqlglot, runtime, Json, model_dump, trino_client, postgres_client}

  unfoldable pub serialize_definitions : Dict DynamicParameterDefinition → Dict Json
  serialize_definitions [] = []
  serialize_definitions ((name, definition) ∷ ds) =
      (name, model_dump definition) ∷ serialize_definitions ds

  abbrev pub client_for : Dialect → Option Client
  client_for trino = some trino_client
  client_for postgres = postgres_client

  -- `_client_for(db_type).execute(statement, parameters)`; the call is put on record
  abbrev pub run_on : Dialect → BoundStatement → Dict Value → Option Client → M Json (List Row)
  run_on db_type statement parameters none w = (err runtime_error, w)
  run_on db_type statement parameters (some client) w = (
    client statement parameters,
    record w {
      executed =
          w.executed
          ++ record { client = db_type; statement = statement; parameters = parameters } ∷ [];
    },
  )

  unfoldable pub execute_on : Dialect → BoundStatement → Dict Value → M Json (List Row)
  execute_on db_type statement parameters = run_on db_type statement parameters (client_for db_type)

  unfoldable pub run_lab_test_if_requested : WriteRequest → Text → M Json (Unit {0})
  unfolding execute_on
  run_lab_test_if_requested payload canonical_sql = if not payload.lab_test then pure tt else do
    parameters ←
        lift (cast_parameter_values runtime payload.params (mapping payload.lab_test_params))
    statement ← lift (build_bound_statement canonical_sql payload.params)
    execute_on payload.db_type statement parameters
    pure tt

  -- the `DynamicRoute(...)` of `create_route`; the database gives it its id
  unfoldable pub new_route : WriteRequest → Text → ℕ → DynamicRoute Json
  unfolding serialize_definitions
  new_route payload canonical_sql actor_id = record {
    id = 0;
    prefix = payload.prefix;
    path = payload.path;
    description = payload.description;
    original_sql = payload.sql;
    canonical_sql = canonical_sql;
    parameter_definitions = serialize_definitions payload.params;
    db_type = payload.db_type;
    pii_type = payload.pii_type;
    response_type = payload.response_type;
    created_by = some actor_id;
    updated_by = some actor_id;
  }

  -- the assignments of `update_route`
  unfoldable pub changed_route : DynamicRoute Json → WriteRequest → Text → ℕ → DynamicRoute Json
  unfolding serialize_definitions
  changed_route route payload canonical_sql actor_id = record route {
    prefix = payload.prefix;
    path = payload.path;
    description = payload.description;
    original_sql = payload.sql;
    canonical_sql = canonical_sql;
    parameter_definitions = serialize_definitions payload.params;
    db_type = payload.db_type;
    pii_type = payload.pii_type;
    response_type = payload.response_type;
    updated_by = some actor_id;
  }

  -- The `try` of both methods, around the call that writes.
  unfoldable pub tested_write :
      WriteRequest → Text → M Json (DynamicRoute Json) → M Json (DynamicRoute Json)
  unfolding rolling_back run_lab_test_if_requested
  tested_write payload canonical_sql write =
      rolling_back
        (do run_lab_test_if_requested payload canonical_sql; written ← write; commit; pure written)

  unfoldable pub create_route : WriteRequest → ℕ → M Json (DynamicRoute Json)
  unfolding tested_write new_route
  create_route payload actor_id = do
    validated ← lift (validate sqlglot runtime payload.sql payload.db_type)
    lift (validate_parameter_contract validated.parameter_names payload.params)
    existing ← get_by_route payload.prefix payload.path
    raise_if (is_some existing) route_exists
    tested_write payload validated.canonical_sql
        (create (new_route payload validated.canonical_sql actor_id))

  -- the test of `get_route`
  abbrev pub or_not_found : Option (DynamicRoute Json) → Result (DynamicRoute Json)
  or_not_found none = err (not_found_error "Dynamic route")
  or_not_found (some route) = ok route

  unfoldable pub get_route : ℕ → M Json (DynamicRoute Json)
  get_route route_id = do route ← get_by_id route_id; lift (or_not_found route)

  abbrev pub is_other : Option (DynamicRoute Json) → ℕ → Bool
  is_other none route_id = false
  is_other (some r) route_id = not (r.id == route_id)

  unfoldable pub update_route : ℕ → WriteRequest → ℕ → M Json (DynamicRoute Json)
  unfolding get_route tested_write changed_route
  update_route route_id payload actor_id = do
    route ← get_route route_id
    validated ← lift (validate sqlglot runtime payload.sql payload.db_type)
    lift (validate_parameter_contract validated.parameter_names payload.params)
    collision ← get_by_route payload.prefix payload.path
    raise_if (is_other collision route.id) route_exists
    tested_write payload validated.canonical_sql
        (update (changed_route route payload validated.canonical_sql actor_id))

  unfoldable pub delete_route : ℕ → M Json (DynamicRoute Json)
  unfolding get_route rolling_back_delete
  delete_route route_id = do
    route ← get_route route_id
    rolling_back_delete (do delete route; commit; pure route)
