-- ===== src/Config.antt =====
-- app/core/config.py: the origins of CORS, and the bounds of the settings; and the connection arguments of
-- app/infrastructure/database/engine.py. Seconds are given in milliseconds.
use data_api.Prelude.{
  arith, ℕ, Bool, true, not, ◌&&◌, Option, none, some, List, map, keep, is_empty, ltb, leb, length,
  ◌≡◌, if◌then◌else◌,
}
use data_api.Text.{Text, split, strip}

-- The value of the field before its validator: a text, or a list.
pub data Origins : Type 0 where
  one : Text → Origins
  many : List Text → Origins

-- [origin.strip() for origin in value.split(",") if origin.strip()]
abbrev pub stripped : List Text → List Text
unfolding strip
stripped origins = map strip (keep (λ o. not (is_empty (strip o))) origins)

unfoldable pub parse_cors_origins : Origins → List Text
unfolding split strip
parse_cors_origins (one value) = stripped (split 44 value)
parse_cors_origins (many value) = value

-- A field that is a list is read from the environment as JSON, before its validators; `none` is the error of
-- pydantic-settings for a text that is none, and `decode` the list of one that is.
unfoldable pub cors_origins_of_env : (Text → Option (List Text)) → Text → Option (List Text)
unfolding parse_cors_origins
cors_origins_of_env decode value = parsed (decode value)
  where
    parsed : Option (List Text) → Option (List Text)
    parsed none = none
    parsed (some origins) = some (parse_cors_origins (many origins))

-- The settings with bounds.
pub record Bounded : Type 0 where
  pub jwt_secret_key : Text
  pub log_file_max_mb : ℕ
  pub log_file_backup_count : ℕ
  pub uvicorn_port : ℕ
  pub uvicorn_workers : ℕ
  pub metrics_port : ℕ
  pub trino_request_timeout_ms : ℕ
  pub trino_query_timeout_ms : ℕ
  pub pii_mapping_snapshot_batch_size : ℕ
  pub pii_sync_interval_ms : ℕ
  pub pii_sync_init_max_retries : ℕ
  pub pii_sync_init_retry_delay_ms : ℕ

abbrev pub is_port : ℕ → Bool
is_port n = leb 1 n && leb n 65535

-- the checks of `Field`
unfoldable pub in_bounds : Bounded → Bool
in_bounds s =
    leb 32 (length s.jwt_secret_key)
    && ltb 0 s.log_file_max_mb
    && is_port s.uvicorn_port
    && leb 1 s.uvicorn_workers
    && is_port s.metrics_port
    && ltb 0 s.trino_request_timeout_ms
    && ltb 0 s.trino_query_timeout_ms
    && ltb 0 s.pii_mapping_snapshot_batch_size
    && ltb 0 s.pii_sync_interval_ms
    && leb 1 s.pii_sync_init_max_retries
    && ltb 0 s.pii_sync_init_retry_delay_ms

-- max(1, int(statement_timeout_seconds * 1000))
unfoldable pub statement_timeout : ℕ → ℕ
statement_timeout ms = if ltb ms 1 then 1 else ms

-- no limit of a statement is 0, which PostgreSQL takes for none
statement_timeout-positive : (ms : ℕ) → ltb 0 (statement_timeout ms) ≡ true
unfolding statement_timeout
statement_timeout-positive ms = ground arith
