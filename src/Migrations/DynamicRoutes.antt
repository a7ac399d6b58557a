-- ===== src/Migrations/DynamicRoutes.antt =====
-- alembic/versions/7d31b2f4a9c0_create_dynamic_routes.py
use data_api.Prelude.{false, some, [], ◌∷◌}
use data_api.Migrations.Schema.{
  drop_table, drop_index, create_index, unique, primary_key, to_id, foreign_key, check,
  id_and_times, uuid, optional, expression, jsonb, literal, text, defaulted, string, required,
  create_table, Revision,
}

abbrev pub dynamic_routes : Revision
dynamic_routes = record {
  revision = "7d31b2f4a9c0";
  down_revision = some "2d7c9a4e1b63";
  upgrade =
      create_table "dynamic_routes"
        (("prefix", required (string 50))
          ∷ ("path", required (string 500))
          ∷ ("description", defaulted text (literal ""))
          ∷ ("original_sql", required text)
          ∷ ("canonical_sql", required text)
          ∷ ("parameter_definitions", defaulted jsonb (expression "'{}'::jsonb"))
          ∷ ("created_by", optional uuid)
          ∷ ("updated_by", optional uuid)
          ∷ id_and_times)
        (check "ck_dynamic_routes_path_not_empty" "path <> ''"
          ∷ check "ck_dynamic_routes_path_relative" "path NOT LIKE '/%' AND path NOT LIKE '%/'"
          ∷ check "ck_dynamic_routes_path_segments" "position('//' in path) = 0"
          ∷ check "ck_dynamic_routes_prefix_lower" "prefix = lower(prefix)"
          ∷ foreign_key "created_by" (to_id "users" "SET NULL")
          ∷ foreign_key "updated_by" (to_id "users" "SET NULL")
          ∷ primary_key ("id" ∷ [])
          ∷ unique "uq_dynamic_routes_prefix_path" ("prefix" ∷ "path" ∷ [])
          ∷ [])
      ∷ create_index "ix_dynamic_routes_created_by" "dynamic_routes" ("created_by" ∷ []) false
      ∷ create_index "ix_dynamic_routes_prefix" "dynamic_routes" ("prefix" ∷ []) false
      ∷ create_index "ix_dynamic_routes_updated_at" "dynamic_routes" ("updated_at" ∷ []) false
      ∷ [];
  downgrade =
      drop_index "ix_dynamic_routes_updated_at" "dynamic_routes"
      ∷ drop_index "ix_dynamic_routes_prefix" "dynamic_routes"
      ∷ drop_index "ix_dynamic_routes_created_by" "dynamic_routes"
      ∷ drop_table "dynamic_routes"
      ∷ [];
}
