-- ===== src/Audit.antt =====
-- app/services/audit_log.py, over the audit entries as the session has flushed and committed them.
pub mod Entries
use data_api.Prelude.{ℕ, String, Bool, false, Option, none, some, List, [], ◌∷◌, ◌++◌}
use data_api.Text.{Text, codes}
use data_api.Access.Users.{User}
use data_api.Dict.{Dict}
use data_api.Errors.{Exc, ok, err}
use data_api.Pii.Mapper.{MissingPiiMapping}
use data_api.Session.{M, ◌>>=◌, ◌>>◌}
use data_api.Value.{Value}

-- The `parameters` of an entry: those of a change of a route, or those of a request with the mappings
-- that it missed, under the key "missing_mappings".
pub data Parameters : Type 0 where
  route_action : String → Option ℕ → Text → Text → Option String → Parameters
  missing_mappings : Dict Value → List MissingPiiMapping → Parameters

pub record AuditLog : Type 0 where
  pub user_id : ℕ
  pub username : Text
  pub api_route : Text
  pub parameters : Parameters
  pub allowed : Bool
  pub error_message : Option String

pub record Trail : Type 0 where
  pub pending : List AuditLog
  pub committed : List AuditLog

abbrev pub dynamic_route_name : Text → Text → Text
dynamic_route_name prefix path = codes "dynamic-route:" ++ (prefix ++ b'/' ∷ path)

unfoldable pub commit_trail : M Trail (Unit {0})
commit_trail t = (ok tt, record { pending = []; committed = t.committed ++ t.pending })

-- `flush_error` is what the database raises when an entry is flushed, if it raises.
module _ (flush_error : AuditLog → Option Exc) where
  unfoldable pub create_entry : AuditLog → M Trail (Unit {0})
  create_entry entry t = elim (flush_error entry) [
    | some e ↦ (err e, t)
    | none ↦ (ok tt, record t { pending = t.pending ++ entry ∷ [] })
  ]

  unfoldable pub audit_missing_mappings :
      User → Text → Dict Value → List MissingPiiMapping → M Trail (Unit {0})
  unfolding create_entry commit_trail
  audit_missing_mappings actor route_name request_parameters missing = do
    create_entry (record {
      user_id = actor.id;
      username = actor.username;
      api_route = route_name;
      parameters = missing_mappings request_parameters missing;
      allowed = false;
      error_message = some "Missing PII mapping";
    })
    commit_trail

  unfoldable pub audit_dynamic_route_action :
      User → String → Option ℕ → Text → Text → Bool → Option String → M Trail (Unit {0})
  unfolding create_entry commit_trail
  audit_dynamic_route_action actor action route_id prefix path allowed error_code = do
    create_entry (record {
      user_id = actor.id;
      username = actor.username;
      api_route = dynamic_route_name prefix path;
      parameters = route_action action route_id prefix path error_code;
      allowed = allowed;
      error_message = error_code;
    })
    commit_trail
