-- ===== src/Migrations/Chain.antt =====
-- The revisions of alembic/versions, and what `alembic upgrade` and `alembic downgrade` do with them: a
-- database knows the version it is at, and moves by one revision at a time.
use package.text.Mathlib.Text.{◌==◌}
use data_api.Prelude.{Bool, true, false, some, none, [], ◌∷◌, String, List, Option, if◌then◌else◌}
use data_api.Migrations.ApiPermissions.{api_permissions}
use data_api.Migrations.DynamicRoutes.{dynamic_routes}
use data_api.Migrations.ErrorMessage.{error_message}
use data_api.Migrations.ExecutionTypes.{execution_types}
use data_api.Migrations.Operations.{◌>>=◌, apply_all}
use data_api.Migrations.Schema.{Schema, Revision, empty_schema}
use data_api.Migrations.SimplifyAuthorization.{simplify_authorization}
use data_api.Migrations.UsersAndAuditLogs.{users_and_audit_logs}

-- the files of alembic/versions, in the order of their names
abbrev pub versions : List Revision
versions =
    simplify_authorization ∷ execution_types ∷ dynamic_routes ∷ api_permissions ∷ error_message
    ∷ users_and_audit_logs ∷ []

-- with the row of the table alembic_version, if there is one
pub record Database : Type 0 where
  pub version : Option String
  pub schema : Schema

abbrev pub fresh : Database
fresh = record { version = none; schema = empty_schema }

abbrev pub is_version : Option String → Option String → Bool
is_version none none = true
is_version none (some y) = false
is_version (some x) none = false
is_version (some x) (some y) = x == y

-- the revision that goes on from the version
abbrev pub next : Option String → List Revision → Option Revision
next version [] = none
next version (r ∷ rs) =
    let rest = next version rs in if is_version r.down_revision version then some r else rest

-- the revision that led to the version
abbrev pub current : Option String → List Revision → Option Revision
current version [] = none
current version (r ∷ rs) =
    let rest = current version rs in if is_version (some r.revision) version then some r else rest

abbrev pub upgrade_by : Option Revision → Database → Option Database
unfolding apply_all
upgrade_by none d = some d
upgrade_by (some r) d =
    apply_all r.upgrade d.schema >>= λ s. some (record { version = some r.revision; schema = s })

abbrev pub downgrade_by : Option Revision → Database → Option Database
unfolding apply_all
downgrade_by none d = some d
downgrade_by (some r) d =
    apply_all r.downgrade d.schema >>= λ s. some (record { version = r.down_revision; schema = s })

-- `upgrade` and `downgrade` by one revision, which leave a database at the end of the chain as it is
pub data Command : Type 0 where
  up down : Command

unfoldable pub perform : Command → Database → Option Database
unfolding upgrade_by downgrade_by
perform up d = upgrade_by (next d.version versions) d
perform down d = downgrade_by (current d.version versions) d

-- none: one of the operations failed
unfoldable pub run : List Command → Database → Option Database
unfolding perform
run [] d = some d
run (c ∷ cs) d = perform c d >>= λ d'. run cs d'

-- `alembic upgrade head`, which has at most six revisions to go
abbrev pub upgrade_head : List Command
upgrade_head = up ∷ up ∷ up ∷ up ∷ up ∷ up ∷ []

-- `alembic downgrade base`
abbrev pub downgrade_base : List Command
downgrade_base = down ∷ down ∷ down ∷ down ∷ down ∷ down ∷ []
