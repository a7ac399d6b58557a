-- ===== src/Tests.antt =====
-- Concrete inputs, runs of the model on them, and the theorems applied to them.
pub mod Samples
pub mod Pii
pub mod Parameters
pub mod Routes
pub mod Access
pub mod Users
pub mod Trino
pub mod Endpoints
pub mod Startup
pub mod InitialAdmin
pub mod Router
pub mod Process
pub mod Http
pub mod Migrations
