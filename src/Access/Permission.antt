-- ===== src/Access/Permission.antt =====
-- `require_api_permission` of app/dependencies/auth.py with its helpers, and the entry of
-- app/models/audit_log.py that it writes.
pub mod Exclusive
pub mod Audit
use data_api.Prelude.{
  ◌||◌, false, drop, none, ◌∷◌, true, some, ◌++◌, if◌then◌else◌, ℕ, [], String, Option, List, Bool,
  length,
}
use data_api.Text.{starts_with, eq_text, rstrip_char, codes, ends_with, Text}
use data_api.Access.Users.{User, is_admin}
use data_api.Dict.{Dict, put, keys}
use data_api.Errors.{authorization_error, ok, err, Result, Exc}
use data_api.Text.Sort.{sorted_set}
use data_api.Value.{Runtime}

abbrev pub or_slash : Text → Text
or_slash [] = b'/' ∷ []
or_slash (c ∷ s) = c ∷ s

unfoldable pub normalize_route_path : Text → Text → Text
normalize_route_path path api_v1_prefix =
    let prefix = rstrip_char b'/' api_v1_prefix in
    let path' = if starts_with path prefix then drop (length prefix) path else path in
    or_slash (rstrip_char b'/' path')

unfoldable pub route_matches_username : Runtime → Text → Text → Bool
route_matches_username rt route_path username =
    let normalized_path = or_slash (rstrip_char b'/' route_path) in
    let username_prefix = b'/' ∷ rt.lower username in
    eq_text normalized_path username_prefix
    || starts_with normalized_path (username_prefix ++ b'/' ∷ [])

abbrev pub denied : String
denied = "API permission denied"

unfoldable pub check_api_permission : Runtime → User → Text → Bool × Option String
unfolding route_matches_username
check_api_permission rt user route_path =
    if is_admin user.role
    then (true, none)
    else if route_matches_username rt route_path user.username
    then (true, none)
    else (false, some denied)

-- The parts of a request that are read; `route_path` is the path of the route that matched it, or
-- empty.
pub record Request : Type 0 where
  pub url_path : Text
  pub query_params : List (Text × Text)
  pub route_path : Text

pub data AuditParameters : Type 0 where
  parameter_names : List Text → AuditParameters
  query : Dict Text → AuditParameters

pub record AuditLog : Type 0 where
  pub user_id : ℕ
  pub username : Text
  pub api_route : Text
  pub parameters : AuditParameters
  pub allowed : Bool
  pub error_message : Option String
  pub time_process_ms : ℕ

-- dict(request.query_params): the last value of each key
unfoldable pub to_dict : Dict Text → List (Text × Text) → Dict Text
to_dict d [] = d
to_dict d ((k, v) ∷ items) = to_dict (put d k v) items

unfoldable pub request_parameters : Request → AuditParameters
unfolding to_dict
request_parameters request =
    let query_params = to_dict [] request.query_params in
    if ends_with request.route_path (codes "/{prefix}/{path:path}")
    then parameter_names (sorted_set (keys query_params))
    else query query_params

-- The entries that the session has flushed, and those that are committed.
pub record AuditStore : Type 0 where
  pub pending : List AuditLog
  pub committed : List AuditLog

-- `flush_error` is what the database raises when an entry is flushed, if it raises.
unfoldable pub create :
    (AuditLog → Option Exc) → AuditLog → AuditStore → Result (Unit {0}) × AuditStore
create flush_error entry store = elim (flush_error entry) [
  | some e ↦ (err e, store)
  | none ↦ (ok tt, record store { pending = store.pending ++ entry ∷ [] })
]

unfoldable pub commit : AuditStore → AuditStore
commit store = record { pending = []; committed = store.committed ++ store.pending }

-- `uow.commit` behind the creation
abbrev pub commit_after : Result (Unit {0}) × AuditStore → Result (Unit {0}) × AuditStore
unfolding commit
commit_after (ok u, store) = (ok tt, commit store)
commit_after (err e, store) = (err e, store)

unfoldable pub write_api_permission_audit_log :
    (AuditLog → Option Exc)
    → Request
    → User
    → Bool × Option String
    → ℕ
    → AuditStore
    → Result (Unit {0}) × AuditStore
unfolding create request_parameters
write_api_permission_audit_log flush_error request current_user decision time_process_ms store =
    let entry : AuditLog = record {
      user_id = current_user.id;
      username = current_user.username;
      api_route = request.url_path;
      parameters = request_parameters request;
      allowed = decision.0;
      error_message = decision.1;
      time_process_ms = time_process_ms;
    } in
    commit_after (create flush_error entry store)

-- the last test of `require_api_permission`
abbrev pub user_if : Bool → User → Result User
user_if true current_user = ok current_user
user_if false current_user = err (authorization_error denied)

-- what follows the writing of the audit log
abbrev pub answer : Bool → User → Result (Unit {0}) × AuditStore → Result User × AuditStore
answer allowed current_user (ok u, store) = (user_if allowed current_user, store)
answer allowed current_user (err e, store) = (err e, store)

unfoldable pub require_api_permission :
    Runtime
    → (AuditLog → Option Exc)
    → Text
    → Request
    → User
    → ℕ
    → AuditStore
    → Result User × AuditStore
unfolding normalize_route_path check_api_permission write_api_permission_audit_log
require_api_permission rt flush_error api_v1_prefix request current_user elapsed_ms store =
    let route_path = normalize_route_path request.url_path api_v1_prefix in
    let decision = check_api_permission rt current_user route_path in
    answer decision.0 current_user
      (write_api_permission_audit_log flush_error request current_user decision elapsed_ms store)
