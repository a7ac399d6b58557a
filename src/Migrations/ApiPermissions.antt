-- ===== src/Migrations/ApiPermissions.antt =====
-- alembic/versions/8f2d4a91c7b3_add_api_permissions_rbac.py
use data_api.Prelude.{List, true, false, some, none, [], ◌∷◌}
use data_api.Migrations.Schema.{
  create_enum, drop_table, to_id, foreign_key, uuid, expression, defaulted, primary_key,
  id_and_times, required, create_table, create_index, drop_enum, drop_column, update_rows, execute,
  integer, text, boolean, string, optional, add_column, enum, drop_index, alter_column, ColumnType,
  Operation, Revision,
}

abbrev pub audit_log_status : ColumnType
audit_log_status = enum "audit_log_status" ("success" ∷ "missing_mapping" ∷ "failed" ∷ [])

abbrev pub upgrade : List Operation
upgrade =
    alter_column "users" "email" none true
    ∷ drop_index "ix_audit_logs_status" "audit_logs"
    ∷ drop_index "ix_audit_logs_event_type" "audit_logs"
    ∷ drop_index "ix_audit_logs_actor_user_id" "audit_logs"
    ∷ alter_column "audit_logs" "actor_user_id" (some "user_id") true
    ∷ alter_column "audit_logs" "payload" (some "parameters") true
    ∷ add_column "audit_logs" "username" (optional (string 50))
    ∷ add_column "audit_logs" "api_route" (optional (string 500))
    ∷ add_column "audit_logs" "allowed" (optional boolean)
    ∷ add_column "audit_logs" "denied_reason" (optional text)
    ∷ add_column "audit_logs" "time_process_ms" (optional integer)
    ∷ add_column "audit_logs" "request_id" (optional (string 100))
    ∷ execute (update_rows "audit_logs" ("api_route" ∷ "event_type" ∷ "allowed" ∷ "status" ∷ []))
    ∷ alter_column "audit_logs" "api_route" none false
    ∷ alter_column "audit_logs" "allowed" none false
    ∷ drop_column "audit_logs" "event_type"
    ∷ drop_column "audit_logs" "status"
    ∷ drop_enum "audit_log_status"
    ∷ create_index "ix_audit_logs_user_id" "audit_logs" ("user_id" ∷ []) false
    ∷ create_index "ix_audit_logs_api_route" "audit_logs" ("api_route" ∷ []) false
    ∷ create_index "ix_audit_logs_allowed" "audit_logs" ("allowed" ∷ []) false
    ∷ create_index "ix_audit_logs_request_id" "audit_logs" ("request_id" ∷ []) false
    ∷ create_table "roles"
        (("code", required (string 50))
          ∷ ("name", required (string 255))
          ∷ ("description", optional text)
          ∷ id_and_times)
        (primary_key ("id" ∷ []) ∷ [])
    ∷ create_index "uq_roles_code" "roles" ("code" ∷ []) true
    ∷ create_table "api_permissions"
        (("name", required (string 255))
          ∷ ("description", optional text)
          ∷ ("route_prefix", required (string 255))
          ∷ ("is_active", defaulted boolean (expression "true"))
          ∷ id_and_times)
        (primary_key ("id" ∷ []) ∷ [])
    ∷ create_index "uq_api_permissions_route_prefix" "api_permissions" ("route_prefix" ∷ []) true
    ∷ create_index "ix_api_permissions_is_active" "api_permissions" ("is_active" ∷ []) false
    ∷ create_table "user_roles" (("user_id", required uuid) ∷ ("role_id", required uuid) ∷ []) (
        foreign_key "role_id" (to_id "roles" "CASCADE")
        ∷ foreign_key "user_id" (to_id "users" "CASCADE")
        ∷ primary_key ("user_id" ∷ "role_id" ∷ [])
        ∷ [])
    ∷ create_table "user_api_permissions"
        (("user_id", required uuid) ∷ ("permission_id", required uuid) ∷ [])
        (foreign_key "permission_id" (to_id "api_permissions" "CASCADE")
          ∷ foreign_key "user_id" (to_id "users" "CASCADE")
          ∷ primary_key ("user_id" ∷ "permission_id" ∷ [])
          ∷ [])
    ∷ []

abbrev pub downgrade : List Operation
downgrade =
    drop_table "user_api_permissions"
    ∷ drop_table "user_roles"
    ∷ drop_index "ix_api_permissions_is_active" "api_permissions"
    ∷ drop_index "uq_api_permissions_route_prefix" "api_permissions"
    ∷ drop_table "api_permissions"
    ∷ drop_index "uq_roles_code" "roles"
    ∷ drop_table "roles"
    ∷ drop_index "ix_audit_logs_request_id" "audit_logs"
    ∷ drop_index "ix_audit_logs_allowed" "audit_logs"
    ∷ drop_index "ix_audit_logs_api_route" "audit_logs"
    ∷ drop_index "ix_audit_logs_user_id" "audit_logs"
    ∷ create_enum "audit_log_status" ("success" ∷ "missing_mapping" ∷ "failed" ∷ [])
    ∷ add_column "audit_logs" "event_type" (optional (string 100))
    ∷ add_column "audit_logs" "status" (optional audit_log_status)
    ∷ execute (update_rows "audit_logs" ("event_type" ∷ "api_route" ∷ "status" ∷ "allowed" ∷ []))
    ∷ alter_column "audit_logs" "event_type" none false
    ∷ alter_column "audit_logs" "status" none false
    ∷ alter_column "audit_logs" "user_id" (some "actor_user_id") true
    ∷ alter_column "audit_logs" "parameters" (some "payload") true
    ∷ execute (update_rows "audit_logs" ("payload" ∷ []))
    ∷ alter_column "audit_logs" "payload" none false
    ∷ drop_column "audit_logs" "request_id"
    ∷ drop_column "audit_logs" "time_process_ms"
    ∷ drop_column "audit_logs" "denied_reason"
    ∷ drop_column "audit_logs" "allowed"
    ∷ drop_column "audit_logs" "api_route"
    ∷ drop_column "audit_logs" "username"
    ∷ create_index "ix_audit_logs_actor_user_id" "audit_logs" ("actor_user_id" ∷ []) false
    ∷ create_index "ix_audit_logs_event_type" "audit_logs" ("event_type" ∷ []) false
    ∷ create_index "ix_audit_logs_status" "audit_logs" ("status" ∷ []) false
    ∷ alter_column "users" "email" none false
    ∷ []

abbrev pub api_permissions : Revision
api_permissions = record {
  revision = "8f2d4a91c7b3";
  down_revision = some "fdda72aad25e";
  upgrade = upgrade;
  downgrade = downgrade;
}
