-- ===== src/Access/Permission/Audit.antt =====
-- What the permission check leaves in the audit log.
use data_api.Prelude.{
  refl, ◌∙◌, ap, none, some, [], ℕ, String, Option, Bool, true, false, ◌∷◌, ◌++◌, ◌≡◌,
}
use data_api.Text.{Text}
use data_api.Access.Permission.{
  commit_after, answer, Request, AuditLog, AuditStore, normalize_route_path, check_api_permission,
  request_parameters, create, commit, write_api_permission_audit_log, user_if,
  require_api_permission,
}
use data_api.Access.Users.{User}
use data_api.Errors.{ok, err, Exc, Result, authorization_error}
use data_api.Value.{Runtime}

-- The entry for a decision.
abbrev pub entry_of : Request → User → Bool × Option String → ℕ → AuditLog
entry_of request u decision elapsed_ms = record {
  user_id = u.id;
  username = u.username;
  api_route = request.url_path;
  parameters = request_parameters request;
  allowed = decision.0;
  error_message = decision.1;
  time_process_ms = elapsed_ms;
}

-- The decision on a request.
abbrev pub decision_on : Runtime → Text → Request → User → Bool × Option String
decision_on rt api_v1_prefix request u =
    check_api_permission rt u (normalize_route_path request.url_path api_v1_prefix)

create_taken :
    (flush_error : AuditLog → Option Exc) (entry : AuditLog) (store : AuditStore)
    → flush_error entry ≡ none
    → create flush_error entry store
      ≡ (ok tt, record store { pending = store.pending ++ entry ∷ [] })
unfolding create
create_taken flush_error entry store e = rw (e, create) refl

create_refused :
    (flush_error : AuditLog → Option Exc) (entry : AuditLog) (store : AuditStore) (x : Exc)
    → flush_error entry ≡ some x
    → create flush_error entry store ≡ (err x, store)
unfolding create
create_refused flush_error entry store x e = rw (e, create) refl

-- What a decision is to come to.
abbrev pub outcome_of : Bool → User → Result User
outcome_of true u = ok u
outcome_of false u = err (authorization_error "API permission denied")

user_if_lem : (allowed : Bool) (u : User) → user_if allowed u ≡ outcome_of allowed u
user_if_lem true u = refl
user_if_lem false u = refl

-- Where the database takes the entry and nothing is pending, exactly one entry is committed, with
-- the decision, the permitted requests and the denied ones alike; and the call returns the user if
-- the request is permitted and raises the authorization error "API permission denied" if not.
pub require_api_permission-audited :
    (rt : Runtime) (flush_error : AuditLog → Option Exc) (api_v1_prefix : Text) (request : Request)
    (u : User) (elapsed_ms : ℕ) (store : AuditStore)
    → store.pending ≡ []
    → flush_error (entry_of request u (decision_on rt api_v1_prefix request u) elapsed_ms) ≡ none
    → require_api_permission rt flush_error api_v1_prefix request u elapsed_ms store ≡ (
      outcome_of (decision_on rt api_v1_prefix request u).0 u,
      record {
        pending = [];
        committed =
            store.committed
            ++ entry_of request u (decision_on rt api_v1_prefix request u) elapsed_ms ∷ [];
      },
    )
unfolding require_api_permission write_api_permission_audit_log commit
require_api_permission-audited rt flush_error api_v1_prefix request u elapsed_ms store none_pending
      taken =
    ap (λ r. answer (decision_on rt api_v1_prefix request u).0 u (commit_after r))
      (create_taken flush_error
        (entry_of request u (decision_on rt api_v1_prefix request u) elapsed_ms) store taken)
    ∙ ap
        (λ p. (
          user_if (decision_on rt api_v1_prefix request u).0 u,
          record {
            pending = [];
            committed =
                store.committed
                ++ (p
                    ++ entry_of request u (decision_on rt api_v1_prefix request u) elapsed_ms ∷ []);
          },
        ))
        none_pending
    ∙ ap
        (λ r. (
          r,
          record {
            pending = [];
            committed =
                store.committed
                ++ entry_of request u (decision_on rt api_v1_prefix request u) elapsed_ms ∷ [];
          },
        ))
        (user_if_lem (decision_on rt api_v1_prefix request u).0 u)

-- Where the database refuses the entry, the call raises what the database raises, whether the request
-- is permitted or not, and nothing is committed.
pub require_api_permission-refused :
    (rt : Runtime) (flush_error : AuditLog → Option Exc) (api_v1_prefix : Text) (request : Request)
    (u : User) (elapsed_ms : ℕ) (store : AuditStore) (e : Exc)
    → flush_error (entry_of request u (decision_on rt api_v1_prefix request u) elapsed_ms) ≡ some e
    → require_api_permission rt flush_error api_v1_prefix request u elapsed_ms store
      ≡ (err e, store)
unfolding require_api_permission write_api_permission_audit_log commit
require_api_permission-refused rt flush_error api_v1_prefix request u elapsed_ms store e refused =
    ap (λ r. answer (decision_on rt api_v1_prefix request u).0 u (commit_after r))
      (create_refused flush_error
        (entry_of request u (decision_on rt api_v1_prefix request u) elapsed_ms) store e refused)
