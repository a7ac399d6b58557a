-- ===== src/Pii.antt =====
-- The PII side of the program: the account map in memory, its loading from the PII database, and
-- the rules that replace tokens in query results.
pub mod AccountMap
pub mod Repository
pub mod Rules
pub mod Mapper
pub mod Snapshot
pub mod Services
pub mod Request
pub mod Endpoints
pub mod Startup
