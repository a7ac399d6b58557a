-- ===== src/Http.antt =====
-- What surrounds the routes: app/core/exceptions.py, app/core/logging.py, app/middlewares and the order in
-- which app/main.py puts them together.
pub mod Messages
pub mod ValidationErrors
pub mod Handlers
pub mod Middlewares
pub mod Application
pub mod Responses
pub mod Identified
pub mod Traced
