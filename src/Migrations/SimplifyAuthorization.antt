-- ===== src/Migrations/SimplifyAuthorization.antt =====
-- alembic/versions/2d7c9a4e1b63_simplify_user_authorization.py
use data_api.Prelude.{true, false, some, [], ◌∷◌}
use data_api.Migrations.Schema.{
  to_id, foreign_key, uuid, primary_key, id_and_times, text, required, create_table, create_index,
  expression, boolean, defaulted, string, optional, add_column, drop_column, drop_index, drop_table,
  Revision,
}

abbrev pub simplify_authorization : Revision
simplify_authorization = record {
  revision = "2d7c9a4e1b63";
  down_revision = some "c4bb09f2d3a1";
  upgrade =
      drop_table "user_api_permissions"
      ∷ drop_table "user_roles"
      ∷ drop_index "ix_api_permissions_is_active" "api_permissions"
      ∷ drop_index "uq_api_permissions_route_prefix" "api_permissions"
      ∷ drop_table "api_permissions"
      ∷ drop_index "uq_roles_code" "roles"
      ∷ drop_table "roles"
      ∷ drop_index "ix_users_is_active" "users"
      ∷ drop_column "users" "is_active"
      ∷ drop_column "users" "full_name"
      ∷ [];
  downgrade =
      add_column "users" "full_name" (optional (string 255))
      ∷ add_column "users" "is_active" (defaulted boolean (expression "true"))
      ∷ create_index "ix_users_is_active" "users" ("is_active" ∷ []) false
      ∷ create_table "roles"
          (("code", required (string 50))
            ∷ ("name", required (string 255))
            ∷ ("description", optional text)
            ∷ id_and_times)
          (primary_key ("id" ∷ []) ∷ [])
      ∷ create_index "uq_roles_code" "roles" ("code" ∷ []) true
      ∷ create_table "api_permissions"
          (("name", required (string 255))
            ∷ ("description", optional text)
            ∷ ("route_prefix", required (string 255))
            ∷ ("is_active", defaulted boolean (expression "true"))
            ∷ id_and_times)
          (primary_key ("id" ∷ []) ∷ [])
      ∷ create_index "uq_api_permissions_route_prefix" "api_permissions" ("route_prefix" ∷ []) true
      ∷ create_index "ix_api_permissions_is_active" "api_permissions" ("is_active" ∷ []) false
      ∷ create_table "user_roles" (("user_id", required uuid) ∷ ("role_id", required uuid) ∷ []) (
          foreign_key "role_id" (to_id "roles" "CASCADE")
          ∷ foreign_key "user_id" (to_id "users" "CASCADE")
          ∷ primary_key ("user_id" ∷ "role_id" ∷ [])
          ∷ [])
      ∷ create_table "user_api_permissions"
          (("user_id", required uuid) ∷ ("permission_id", required uuid) ∷ [])
          (foreign_key "permission_id" (to_id "api_permissions" "CASCADE")
            ∷ foreign_key "user_id" (to_id "users" "CASCADE")
            ∷ primary_key ("user_id" ∷ "permission_id" ∷ [])
            ∷ [])
      ∷ [];
}
