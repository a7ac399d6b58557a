-- ===== src/Migrations.antt =====
-- alembic/versions: the revisions of the database's schema, and the models of app/models they lead to.
pub mod Schema
pub mod Operations
pub mod UsersAndAuditLogs
pub mod ApiPermissions
pub mod ErrorMessage
pub mod SimplifyAuthorization
pub mod DynamicRoutes
pub mod ExecutionTypes
pub mod Models
pub mod Chain
pub mod Stages
