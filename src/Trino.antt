-- ===== src/Trino.antt =====
-- app/infrastructure/trino/client.py and app/utils/sql.py.
pub mod Engine
pub mod Identifiers
pub mod Metadata
