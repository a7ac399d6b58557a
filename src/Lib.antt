-- ===== src/Lib.antt =====
-- data-api: a FastAPI service that runs stored SQL ("dynamic routes") against Trino or Postgres, and
-- replaces the tokens of personal data in the rows by values from a map that it keeps in memory.
--
-- The parts, and the files that model them:
--   Pii/AccountMap      app/services/account_map_in_memory.py: the map of tokens, as a record
--   Pii/Repository      app/repositories/sqlalchemy/account_map.py: the queries and their batches
--   Pii/Snapshot        app/services/pii_mapping_snapshot.py, pii_cache_sync.py: loading the map
--   Pii/Startup         app/dependencies/services.py: the attempts to load the map at startup
--   Pii/Rules, Mapper   app/services/query_engine/pii_rules.py, power_bi_rules.py, users_rules.py,
--                       pii_mapper.py: what a row holds after the mapping
--   Pii/Services        app/services/query_engine/base_service.py, power_bi_service.py,
--                       power_bi_query.py: the Power BI queries, over the mapper
--   Dynamic/Names, Parameters
--                       app/services/query_engine/dynamic_parameters.py: definitions of parameters,
--                       the contract with the SQL, casts and bound statements
--   Dynamic/Safety      app/services/query_engine/sql_safety.py: the check of SQL
--   Dynamic/Pagination, Routes
--                       app/services/query_engine/dynamic_routes.py: the service
--   Dynamic/Request     app/schemas/dynamic_route.py: the validators of a request that writes
--   Dynamic/Store       app/models/dynamic_route.py, app/repositories/sqlalchemy/dynamic_route.py,
--                       app/infrastructure/database/unit_of_work.py: the table and its session
--   Access/Permission   app/dependencies/auth.py, app/models/audit_log.py: the permission check and its
--                       audit entries
--   Access/Security     app/core/security.py: passwords and tokens
--   Access/Repository   app/repositories/sqlalchemy/user.py, app/models/user.py: the table of users and
--                       the session of a request
--   Access/Schemas, Auth, Accounts, Endpoints
--                       app/schemas/user.py, auth.py, app/services/auth.py, user.py,
--                       app/api/v1/endpoints/users.py, auth.py: the requests on users
--   Session             state passing with exceptions, for both tables
--   Trino/Engine        app/infrastructure/trino/client.py: the engine slot, as threads under a lock
--   Trino/Metadata, Identifiers
--                       the same file and app/utils/sql.py: the requests for names, and their quoting
--   Audit               app/services/audit_log.py: entries of the audit log
--   Dynamic/Endpoints   app/api/v1/endpoints/dynamic_routes.py, dynamic_execute.py
--   Pii/Request, Endpoints
--                       app/schemas/power_bi.py, app/api/v1/endpoints/power_bi.py, data.py,
--                       app/services/query_engine/users_service.py, users_query.py
--   Access/InitialAdmin scripts/create_initial_admin.py
--   Errors              app/core/exceptions.py: the errors of the application
--   Http                app/core/exceptions.py, app/middlewares, app/main.py: the handlers of exceptions
--                       and the middlewares, as functions on applications, in their order
--   Router              app/api/v1/router.py: the routes, with the dependencies that guard them
--   Process             app/dependencies/services.py, app/main.py: the variables of the process, the calls
--                       that read and set them, and the startup
--   Logging, Config     app/core/logging.py, app/core/config.py, app/infrastructure/database/engine.py
--   Migrations          alembic/versions, app/models: the revisions as lists of operations on a schema,
--                       and the schema of the models
--   Prelude, Text, Dict, Value
--                       what is shared: numbers and lists, Python's str, dict and values
--   Tests               concrete inputs, runs on them, and the theorems applied to them
-- Definitions have the names of the source's functions, without a leading underscore; `Laws` and the
-- other child modules hold the proofs. The service keeps the table as committed and as the session
-- sees it, and a record of the statements that the clients were given (Dynamic/Store, World); its
-- methods are state passing with exceptions. The account map's methods are functions on a record.
--
-- Parameters of the model, since their code is not in the repository: sqlglot (Safety.Sqlglot), the
-- cryptographic libraries and the clock (Security.Crypto, UserTable.clock), EmailStr (Schemas.Texts), the
-- database drivers (functions from a statement to rows or an exception), pydantic's dump and
-- validation of a stored definition (Routes.Env), and the parts of Python that work by Unicode tables
-- or number formats (Value.Runtime). Of the web framework: which values have a JSON text, the phrases of
-- status codes, what CORSMiddleware and the Instrumentator do with a request, the debug page
-- (Http.Messages.Platform); of logging, the names of levels and the opening of files (Logging.Platform).
-- A float is its 64 bits, a date a number, a UUID a number.
--
-- Fuel: the two loading loops take fuel, and more fuel than there are rows is enough
-- (Pii.Snapshot.Complete). The substitution of placeholders takes the length of the text as fuel: it
-- drops a character or more each round.
--
-- Requests on users are steps between tables: each runs in a session of its own, and what other
-- processes commit during it arrives at its first write (Repository, `others` and `arrive`). Between
-- requests other processes insert, change and delete rows (Endpoints/Reachable, Step), whose names have
-- passed the schemas of requests. scripts/create_power_bi_user.sh writes names that nothing validates, and
-- is not among these processes.
--
-- The threads of the Trino client (Trino/Engine, Thread) take a step between two releases of the lock;
-- `switch` lets any other thread run next, so every interleaving is a sequence of steps. Routes and audit
-- entries share a session (Dynamic/Endpoints, Site): when an entry is committed, no change of a route is
-- pending.
--
-- A revision's operations are those of alembic and the SQL that it executes, and fail for what the schema
-- is: a table, a column or an index that is missing or there already, a reference to what is dropped, a
-- type in use (Migrations/Operations). Names are kept in order, so that two schemas with the same parts
-- are equal.
--
-- An application of Http takes the request, a copy of its caller's context variable and the shared
-- request state, and gives its outcome with the state, the log lines and the time taken. Of Starlette,
-- the model has the order of its middlewares, and that its last one answers in debug mode by itself.
--
-- A call of `get_trino_client` (Process, Call) is a thread with a step for each line, and any other may come
-- between two of them; a round of the background task is one step.
--
-- Not modelled: as glue, the building of repositories and services, sessions and pools, and metrics;
-- what migrations do to rows; the methods that only list rows. A background task that writes an
-- audit entry is run with its response.
-- Other transactions that commit between two statements are modelled by the keys they take
-- (World.concurrent) or the rows they add (UserTable.others). What the database raises beside that when it
-- is to write or to commit routes is given with the table (World.flush_error, commit_error), as is what
-- sqlglot raises that is no error of its own (Safety.Sqlglot).
pub mod Prelude
pub mod Text
pub mod Dict
pub mod Value
pub mod Errors
pub mod Session
pub mod Pii
pub mod Dynamic
pub mod Access
pub mod Audit
pub mod Trino
pub mod Process
pub mod Logging
pub mod Config
pub mod Router
pub mod Http
pub mod Migrations
pub mod Tests
