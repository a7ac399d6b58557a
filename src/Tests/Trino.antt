-- ===== src/Tests/Trino.antt =====
-- The theorems on the Trino client, at concrete inputs.
use data_api.Prelude.{refl, List, ◌≡◌, [], ◌∷◌, none}
use data_api.Text.{codes, Text}
use data_api.Errors.{ok, value_error, err, Result}
use data_api.Pii.Mapper.{Row}
use data_api.Tests.Samples.{runtime}
use data_api.Trino.Engine.{
  query, Client, returns, disposing, Reach, start, execute_called, time_out, step, run,
}
use data_api.Trino.Engine.Disposal.{IsTracked, Reach-IsTracked}
use data_api.Trino.Metadata.{get_columns, trino_columns, get_tables, get_schemas}
use data_api.Trino.Metadata.Statements.{get_names-Shows, names, Shows}
use data_api.Value.{str}

-- A statement runs on the first engine; the time of its call runs out.
abbrev in_use : Client
in_use = record { engine = none; created = 1; disposed = [] }

timed_out_call : Reach (disposing 0 ∷ query 0 ∷ []) in_use
unfolding run
timed_out_call = step returns (time_out (step returns (execute_called start)))

Reach-IsTracked_example : IsTracked 0 (disposing 0 ∷ query 0 ∷ []) in_use
Reach-IsTracked_example = Reach-IsTracked timed_out_call 0

abbrev show : Text → Result (List Row)
show statement = ok ((((codes "Schema", str (codes "default")) ∷ [])) ∷ [])

get_names-Shows_example :
    Shows show
      (names runtime show)
      (codes "SHOW SCHEMAS FROM ")
      (codes "hive")
      (get_schemas runtime show (codes "hive"))
    × Shows show
        (names runtime show)
        (codes "SHOW TABLES FROM ")
        (codes "hive.default")
        (get_tables runtime show (codes "hive") (codes "default"))
    × Shows show
        (trino_columns runtime)
        (codes "SHOW COLUMNS FROM ")
        (codes "hive.default.users")
        (get_columns runtime show (codes "hive") (codes "default") (codes "users"))
get_names-Shows_example =
    get_names-Shows runtime show (codes "hive") (codes "default") (codes "users")

-- a name with a quotation mark in it is refused
is_refused : get_schemas runtime show (codes "hive\" x") ≡ err value_error
unfolding get_schemas
is_refused = refl
