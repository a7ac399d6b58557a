-- ===== src/Migrations/ErrorMessage.antt =====
-- alembic/versions/c4bb09f2d3a1_update_audit_logs_error_message.py
use data_api.Prelude.{false, some, [], ◌∷◌}
use data_api.Migrations.Schema.{
  create_index, string, optional, add_column, rename_first, drop_column_if_exists,
  drop_index_if_exists, execute, Revision,
}

abbrev pub error_message : Revision
error_message = record {
  revision = "c4bb09f2d3a1";
  down_revision = some "8f2d4a91c7b3";
  upgrade =
      execute (drop_index_if_exists "ix_audit_logs_request_id")
      ∷ execute (drop_column_if_exists "audit_logs" "request_id")
      ∷ execute (rename_first "audit_logs" ("denied_reason" ∷ "denied_reson" ∷ []) "error_message")
      ∷ [];
  downgrade =
      execute (rename_first "audit_logs" ("error_message" ∷ []) "denied_reason")
      ∷ add_column "audit_logs" "request_id" (optional (string 100))
      ∷ create_index "ix_audit_logs_request_id" "audit_logs" ("request_id" ∷ []) false
      ∷ [];
}
