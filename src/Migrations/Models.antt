-- ===== src/Migrations/Models.antt =====
-- app/models/base.py, user.py, audit_log.py and dynamic_route.py: the schema that the models declare.
use data_api.Prelude.{true, false, [], ◌∷◌, ◌++◌, String, List, map}
use data_api.Migrations.Operations.{new_table, create_types}
use data_api.Migrations.Schema.{
  to_id, check, unique, foreign_key, primary_key, integer, expression, text, literal, boolean,
  jsonb, defaulted, uuid, string, required, optional, in_order, id_and_times, enum, Named, Column,
  Index, Constraint, Table, Schema, ColumnType,
}

-- A class of the models: its table's name, its columns, its constraints and its indexes.
pub record Model : Type 0 where
  pub tablename : String
  pub columns : List (String × Column)
  pub constraints : List Constraint
  pub indexes : List (String × Index)

abbrev index_of : List String → Index
index_of columns = record { columns = columns; unique = false }

abbrev unique_index_of : List String → Index
unique_index_of columns = record { columns = columns; unique = true }

abbrev pub user_role : ColumnType
user_role = enum "user_role" ("user" ∷ "admin" ∷ [])

abbrev pub user : Model
user = record {
  tablename = "users";
  columns =
      id_and_times
      ++ ("email", optional (string 320))
        ∷ ("username", required (string 50))
        ∷ ("hashed_password", required (string 255))
        ∷ ("role", defaulted user_role (literal "user"))
        ∷ [];
  constraints = primary_key ("id" ∷ []) ∷ [];
  indexes =
      ("uq_users_email", unique_index_of ("email" ∷ []))
      ∷ ("uq_users_username", unique_index_of ("username" ∷ []))
      ∷ ("ix_users_role", index_of ("role" ∷ []))
      ∷ [];
}

abbrev pub audit_log : Model
audit_log = record {
  tablename = "audit_logs";
  columns =
      id_and_times
      ++ ("user_id", optional uuid)
        ∷ ("username", optional (string 50))
        ∷ ("api_route", required (string 500))
        ∷ ("parameters", optional jsonb)
        ∷ ("allowed", required boolean)
        ∷ ("error_message", optional text)
        ∷ ("time_process_ms", optional integer)
        ∷ [];
  constraints = primary_key ("id" ∷ []) ∷ foreign_key "user_id" (to_id "users" "SET NULL") ∷ [];
  indexes =
      ("ix_audit_logs_user_id", index_of ("user_id" ∷ []))
      ∷ ("ix_audit_logs_api_route", index_of ("api_route" ∷ []))
      ∷ ("ix_audit_logs_allowed", index_of ("allowed" ∷ []))
      ∷ [];
}

abbrev pub db_type : ColumnType
db_type = enum "dynamic_route_db_type" ("trino" ∷ "postgres" ∷ [])

abbrev pub pii_type : ColumnType
pii_type = enum "dynamic_route_pii_type" ("account_id" ∷ "customer_id" ∷ [])

abbrev pub response_type : ColumnType
response_type = enum "dynamic_route_response_type" ("paginated" ∷ "data" ∷ [])

abbrev pub dynamic_route : Model
dynamic_route = record {
  tablename = "dynamic_routes";
  columns =
      id_and_times
      ++ ("prefix", required (string 50))
        ∷ ("path", required (string 500))
        ∷ ("description", defaulted text (literal ""))
        ∷ ("original_sql", required text)
        ∷ ("canonical_sql", required text)
        ∷ ("parameter_definitions", defaulted jsonb (expression "'{}'::jsonb"))
        ∷ ("db_type", defaulted db_type (literal "trino"))
        ∷ ("pii_type", optional pii_type)
        ∷ ("response_type", defaulted response_type (literal "data"))
        ∷ ("created_by", optional uuid)
        ∷ ("updated_by", optional uuid)
        ∷ [];
  constraints =
      primary_key ("id" ∷ [])
      ∷ unique "uq_dynamic_routes_prefix_path" ("prefix" ∷ "path" ∷ [])
      ∷ check "ck_dynamic_routes_prefix_lower" "prefix = lower(prefix)"
      ∷ check "ck_dynamic_routes_path_not_empty" "path <> ''"
      ∷ check "ck_dynamic_routes_path_relative" "path NOT LIKE '/%' AND path NOT LIKE '%/'"
      ∷ check "ck_dynamic_routes_path_segments" "position('//' in path) = 0"
      ∷ foreign_key "created_by" (to_id "users" "SET NULL")
      ∷ foreign_key "updated_by" (to_id "users" "SET NULL")
      ∷ [];
  indexes =
      ("ix_dynamic_routes_prefix", index_of ("prefix" ∷ []))
      ∷ ("ix_dynamic_routes_created_by", index_of ("created_by" ∷ []))
      ∷ ("ix_dynamic_routes_updated_at", index_of ("updated_at" ∷ []))
      ∷ [];
}

abbrev pub models : List Model
models = user ∷ audit_log ∷ dynamic_route ∷ []

abbrev pub table_of : Model → String × Table
unfolding new_table in_order
table_of m =
    (m.tablename, record (new_table m.columns m.constraints) { indexes = in_order m.indexes })

abbrev pub enums_of : List Model → Named (List String)
enums_of [] = []
enums_of (m ∷ ms) = create_types m.columns (enums_of ms)

-- `Base.metadata`, the schema of all models
unfoldable pub metadata : List Model → Schema
unfolding in_order
metadata ms = record { tables = in_order (map table_of ms); enums = enums_of ms }
