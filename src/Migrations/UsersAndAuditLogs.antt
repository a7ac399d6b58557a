-- ===== src/Migrations/UsersAndAuditLogs.antt =====
-- alembic/versions/fdda72aad25e_create_users_and_audit_logs.py
use data_api.Prelude.{true, false, none, [], ◌∷◌}
use data_api.Migrations.Schema.{
  drop_enum, drop_table, drop_index, to_id, foreign_key, jsonb, uuid, create_index, primary_key,
  id_and_times, literal, enum, expression, boolean, defaulted, optional, string, required,
  create_table, Revision,
}

abbrev pub users_and_audit_logs : Revision
users_and_audit_logs = record {
  revision = "fdda72aad25e";
  down_revision = none;
  upgrade =
      create_table "users"
        (("email", required (string 320))
          ∷ ("username", required (string 50))
          ∷ ("hashed_password", required (string 255))
          ∷ ("full_name", optional (string 255))
          ∷ ("is_active", defaulted boolean (expression "true"))
          ∷ ("role", defaulted (enum "user_role" ("user" ∷ "admin" ∷ [])) (literal "user"))
          ∷ id_and_times)
        (primary_key ("id" ∷ []) ∷ [])
      ∷ create_index "ix_users_is_active" "users" ("is_active" ∷ []) false
      ∷ create_index "ix_users_role" "users" ("role" ∷ []) false
      ∷ create_index "uq_users_email" "users" ("email" ∷ []) true
      ∷ create_index "uq_users_username" "users" ("username" ∷ []) true
      ∷ create_table "audit_logs"
          (("event_type", required (string 100))
            ∷ ("actor_user_id", optional uuid)
            ∷ (
              "status",
              required (enum "audit_log_status" ("success" ∷ "missing_mapping" ∷ "failed" ∷ [])),
            )
            ∷ ("payload", required jsonb)
            ∷ id_and_times)
          (foreign_key "actor_user_id" (to_id "users" "SET NULL") ∷ primary_key ("id" ∷ []) ∷ [])
      ∷ create_index "ix_audit_logs_actor_user_id" "audit_logs" ("actor_user_id" ∷ []) false
      ∷ create_index "ix_audit_logs_event_type" "audit_logs" ("event_type" ∷ []) false
      ∷ create_index "ix_audit_logs_status" "audit_logs" ("status" ∷ []) false
      ∷ [];
  downgrade =
      drop_index "ix_audit_logs_status" "audit_logs"
      ∷ drop_index "ix_audit_logs_event_type" "audit_logs"
      ∷ drop_index "ix_audit_logs_actor_user_id" "audit_logs"
      ∷ drop_table "audit_logs"
      ∷ drop_index "uq_users_username" "users"
      ∷ drop_index "uq_users_email" "users"
      ∷ drop_index "ix_users_role" "users"
      ∷ drop_index "ix_users_is_active" "users"
      ∷ drop_table "users"
      ∷ drop_enum "audit_log_status"
      ∷ drop_enum "user_role"
      ∷ [];
}
