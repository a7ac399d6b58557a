-- ===== src/Dynamic/Store.antt =====
-- app/models/dynamic_route.py and app/repositories/sqlalchemy/dynamic_route.py, with the session
-- and the unit of work of app/infrastructure/database/unit_of_work.py under them: methods act on the
-- session's view of the table, and may raise.
use data_api.Prelude.{
  none, some, false, ℕ, ◌+◌, Bool, not, ◌&&◌, ◌||◌, Option, List, [], ◌∷◌, ◌++◌, map, any, keep,
  ◌==◌, if◌then◌else◌,
}
use data_api.Text.{Text, eq_text}
use data_api.Dict.{Dict}
use data_api.Dynamic.Pagination.{ResponseType}
use data_api.Dynamic.Parameters.Statement.{BoundStatement}
use data_api.Dynamic.Safety.{Dialect}
use data_api.Errors.{Exc, integrity_error, Result, ok, err}
use data_api.Value.{Value}
pub mod Committed
pub use data_api.Session.{continue, ◌>>=◌, ◌>>◌, pure, lift, raise_if}
unfoldable pub use data_api.Session.{scalar_one_or_none}

-- DynamicRoutePiiType
pub data PiiType : Type 0 where
  account_id customer_id : PiiType

-- A UUID is a number; D is the JSON of one parameter definition.
pub record DynamicRoute (D : Type 0) : Type 0 where
  pub id : ℕ
  pub prefix : Text
  pub path : Text
  pub description : Text
  pub original_sql : Text
  pub canonical_sql : Text
  pub parameter_definitions : Dict D
  pub db_type : Dialect
  pub pii_type : Option PiiType
  pub response_type : ResponseType
  pub created_by : Option ℕ
  pub updated_by : Option ℕ

unfoldable pub api_path : {D : Type 0} → DynamicRoute D → Text
api_path r = b'/' ∷ (r.prefix ++ b'/' ∷ r.path)

-- A statement that a client was given, with its parameters.
pub record Execution : Type 0 where
  pub client : Dialect
  pub statement : BoundStatement
  pub parameters : Dict Value

-- The table as committed and as the session sees it; the ids that are used up; the keys that other
-- transactions have committed since the session read the table; what the clients were given; and what
-- the database raises, if anything and beside the unique constraint, when the session writes its rows or
-- commits them: a lost connection, say, or a timeout.
pub record World (D : Type 0) : Type 0 where
  pub committed : List (DynamicRoute D)
  pub session : List (DynamicRoute D)
  pub next_id : ℕ
  pub concurrent : List (Text × Text)
  pub executed : List Execution
  pub flush_error : List (DynamicRoute D) → Option Exc
  pub commit_error : List (DynamicRoute D) → Option Exc

abbrev pub M : Type 0 → Type 0 → Type 0
M D A = World D → Result A × World D

module _ {D : Type 0} where
  abbrev pub has_key : Text → Text → DynamicRoute D → Bool
  has_key prefix path r = eq_text r.prefix prefix && eq_text r.path path

  abbrev pub has_id : ℕ → DynamicRoute D → Bool
  has_id route_id r = r.id == route_id

  unfoldable pub get_by_id : ℕ → M D (Option (DynamicRoute D))
  unfolding scalar_one_or_none
  get_by_id route_id w = (scalar_one_or_none (keep (has_id route_id) w.session), w)

  unfoldable pub get_by_route : Text → Text → M D (Option (DynamicRoute D))
  unfolding scalar_one_or_none
  get_by_route prefix path w = (scalar_one_or_none (keep (has_key prefix path) w.session), w)

  -- The unique constraint `uq_dynamic_routes_prefix_path`, for a row that is written: another row
  -- of the table, or one that another transaction has committed, has its key.
  unfoldable pub violates : DynamicRoute D → World D → Bool
  violates r w =
      any (λ s. not (s.id == r.id) && has_key r.prefix r.path s) w.session
      || any (λ k. eq_text k.0 r.prefix && eq_text k.1 r.path) w.concurrent

  abbrev pub or_raise : {A : Type 0} → Option Exc → A → M D A
  or_raise none a w = (ok a, w)
  or_raise (some e) a w = (err e, w)

  -- `flush`: whatever it raises, the change stays in the session until `rollback`
  unfoldable pub flush : {A : Type 0} → Bool → A → M D A
  flush violated a w =
      if violated then (err integrity_error, w) else or_raise (w.flush_error w.session) a w

  -- `add`, `flush`, `refresh`: the database gives the row its id
  unfoldable pub create : DynamicRoute D → M D (DynamicRoute D)
  unfolding violates flush
  create route w =
      let row = record route { id = w.next_id } in
      flush (violates row w) row
        (record w { session = w.session ++ row ∷ []; next_id = w.next_id + 1 })

  abbrev pub replace : DynamicRoute D → DynamicRoute D → DynamicRoute D
  replace route r = if has_id route.id r then route else r

  -- `flush`, `refresh` of a row whose object has been changed
  unfoldable pub update : DynamicRoute D → M D (DynamicRoute D)
  unfolding violates flush
  update route w =
      flush (violates route w) route (record w { session = map (replace route) w.session })

  -- `session.delete`, `flush`
  unfoldable pub delete : DynamicRoute D → M D (Unit {0})
  unfolding flush
  delete route w =
      flush false tt (record w { session = keep (λ r. not (has_id route.id r)) w.session })

  abbrev pub commit_or_raise : Option Exc → M D (Unit {0})
  commit_or_raise none w = (ok tt, record w { committed = w.session })
  commit_or_raise (some e) w = (err e, w)

  unfoldable pub commit : M D (Unit {0})
  commit w = commit_or_raise (w.commit_error w.session) w

  unfoldable pub rollback : World D → World D
  rollback w = record w { session = w.committed }
