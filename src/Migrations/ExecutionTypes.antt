-- ===== src/Migrations/ExecutionTypes.antt =====
-- alembic/versions/3a6f2d8c1b40_add_dynamic_route_execution_types.py
use data_api.Prelude.{some, [], ◌∷◌}
use data_api.Migrations.Schema.{
  drop_enum, drop_column, optional, literal, enum, defaulted, add_column, create_enum, Revision,
}

abbrev pub execution_types : Revision
execution_types = record {
  revision = "3a6f2d8c1b40";
  down_revision = some "7d31b2f4a9c0";
  upgrade =
      create_enum "dynamic_route_db_type" ("trino" ∷ "postgres" ∷ [])
      ∷ create_enum "dynamic_route_pii_type" ("account_id" ∷ "customer_id" ∷ [])
      ∷ create_enum "dynamic_route_response_type" ("paginated" ∷ "data" ∷ [])
      ∷ add_column "dynamic_routes" "db_type"
          (defaulted (enum "dynamic_route_db_type" ("trino" ∷ "postgres" ∷ [])) (literal "trino"))
      ∷ add_column "dynamic_routes" "pii_type"
          (optional (enum "dynamic_route_pii_type" ("account_id" ∷ "customer_id" ∷ [])))
      ∷ add_column "dynamic_routes" "response_type" (
          defaulted (enum "dynamic_route_response_type" ("paginated" ∷ "data" ∷ []))
            (literal "data"))
      ∷ [];
  downgrade =
      drop_column "dynamic_routes" "response_type"
      ∷ drop_column "dynamic_routes" "pii_type"
      ∷ drop_column "dynamic_routes" "db_type"
      ∷ drop_enum "dynamic_route_response_type"
      ∷ drop_enum "dynamic_route_pii_type"
      ∷ drop_enum "dynamic_route_db_type"
      ∷ [];
}
