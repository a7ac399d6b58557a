-- ===== src/Dynamic.antt =====
-- The dynamic routes: SQL stored with a route, its safety check, its parameters, and its execution.
pub mod Names
pub mod Parameters
pub mod Safety
pub mod Pagination
pub mod Store
pub mod Routes
pub mod Endpoints
pub mod Request
