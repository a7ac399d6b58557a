-- ===== src/Access.antt =====
-- Who may call what: the users, and the permission check of the data endpoints.
pub mod InitialAdmin
pub mod Users
pub mod Security
pub mod Repository
pub mod Schemas
pub mod Names
pub mod Auth
pub mod Accounts
pub mod Endpoints
pub mod Permission
