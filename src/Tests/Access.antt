-- ===== src/Tests/Access.antt =====
-- The theorems on the permission check, at concrete inputs.
use data_api.Prelude.{refl, ◌∷◌, true, false, ◌≡◌, [], some, none}
use data_api.Text.{rstrip_by, rstrip_char, starts_with, eq_text, codes}
use data_api.Access.Permission.{Request, AuditStore, check_api_permission, require_api_permission}
use data_api.Access.Permission.Audit.{
  outcome_of, entry_of, decision_on, require_api_permission-audited,
}
use data_api.Access.Users.{User, UserRole}
use data_api.Tests.Samples.{runtime}

abbrev alice : User
alice = record {
  id = 1;
  email = none;
  username = codes "Alice";
  hashed_password = [];
  role = UserRole.user;
}

abbrev alice_again : User
alice_again = record alice { id = 2; username = codes "alice" }

abbrev mallory : User
mallory = record alice { id = 3; username = codes "ali" }

-- a user is denied the route of another whose name hers begins
is_denied :
    check_api_permission runtime mallory (codes "/alice/report")
    ≡ (false, some "API permission denied")
unfolding check_api_permission eq_text rstrip_char rstrip_by starts_with
is_denied = refl

is_permitted : check_api_permission runtime alice (codes "/alice/report") ≡ (true, none)
unfolding check_api_permission eq_text rstrip_char rstrip_by starts_with
is_permitted = refl

is_permitted_again : check_api_permission runtime alice_again (codes "/alice/report") ≡ (true, none)
unfolding check_api_permission eq_text rstrip_char rstrip_by starts_with
is_permitted_again = refl

-- a name that scripts/create_power_bi_user.sh can write: both users are permitted the same route
abbrev power_bi_user : User
power_bi_user = record alice { id = 4; username = codes "alice/reports" }

power_bi_user_is_permitted :
    check_api_permission runtime power_bi_user (codes "/alice/reports/1") ≡ (true, none)
unfolding check_api_permission eq_text rstrip_char rstrip_by starts_with
power_bi_user_is_permitted = refl

alice_is_permitted_too :
    check_api_permission runtime alice (codes "/alice/reports/1") ≡ (true, none)
unfolding check_api_permission eq_text rstrip_char rstrip_by starts_with
alice_is_permitted_too = refl

abbrev request : Request
request = record {
  url_path = codes "/api/v1/alice/report";
  query_params = [];
  route_path = codes "/users";
}

abbrev empty_store : AuditStore
empty_store = record { pending = []; committed = [] }

require_api_permission-audited_example :
    require_api_permission runtime (λ e. none) (codes "/api/v1") request mallory 3 empty_store ≡ (
      outcome_of (decision_on runtime (codes "/api/v1") request mallory).0 mallory,
      record {
        pending = [];
        committed =
            entry_of request mallory (decision_on runtime (codes "/api/v1") request mallory) 3 ∷ [];
      },
    )
require_api_permission-audited_example =
    require_api_permission-audited runtime (λ e. none) (codes "/api/v1") request mallory 3
      empty_store refl refl
