-- ===== src/Tests/Endpoints.antt =====
-- The theorems on the requests that write to the audit log, at concrete inputs.
use data_api.Prelude.{Option, List, none, some, [], ◌∷◌, ◌≡◌, refl}
use data_api.Text.{Text, codes}
use data_api.Access.Users.{User, UserRole}
use data_api.Audit.{dynamic_route_name, AuditLog, Trail}
use data_api.Audit.Entries.{extended}
use data_api.Dict.{Dict}
use data_api.Dynamic.Endpoints.{RegisteredRoute, reject_static_get_collision}
use data_api.Dynamic.Endpoints.Execute.{execute_dynamic_route}
use data_api.Dynamic.Endpoints.Execute.Entries.{due_after, executions_are_audited}
use data_api.Dynamic.Routes.Execute.{execute_route}
use data_api.Errors.{conflict_error, Result, ok, err, Exc}
use data_api.Pii.AccountMap.{init, AccountMapInMemory}
use data_api.Pii.Endpoints.{DeeplinkParams, request_data, get_deeplink_1, get_deeplink_2}
use data_api.Pii.Endpoints.Audited.{answered, deeplinks_are_audited}
use data_api.Pii.Mapper.{Row}
use data_api.Pii.Request.{RequestData, validate_request}
use data_api.Pii.Request.Filters.{IsNormal, validate_request-IsNormal}
use data_api.Pii.Services.{DeeplinkQuery, DeeplinkRequest, deeplink_1, deeplink_2}
use data_api.Tests.Samples.{runtime, env, world, row}
use data_api.Value.{Value, str, null}

abbrev admin : User
admin = record {
  id = 1;
  email = none;
  username = codes "admin";
  hashed_password = [];
  role = UserRole.admin;
}

abbrev no_error : AuditLog → Option Exc
no_error e = none

abbrev empty_trail : Trail
empty_trail = record { pending = []; committed = [] }

abbrev registered : List RegisteredRoute
registered =
    record { path = some (codes "/api/v1/data/users"); methods = some (codes "GET" ∷ []) } ∷ []

is_no_collision :
    reject_static_get_collision registered (codes "/api/v1/") (codes "data") (codes "report")
    ≡ ok tt
unfolding reject_static_get_collision data_api.Text.rstrip_by
is_no_collision = refl

is_collision :
    reject_static_get_collision registered (codes "/api/v1/") (codes "data") (codes "users")
    ≡ err (
        conflict_error "Dynamic route conflicts with a static GET endpoint"
          "dynamic_route_path_conflict")
unfolding reject_static_get_collision data_api.Text.rstrip_by
is_collision = refl

abbrev raw : RequestData
raw = record {
  start_date = 10;
  end_date = 12;
  limit = some 5;
  segmentation = str (codes " a, ,b ");
  user_agent = null;
  customer_id = null;
}

abbrev request : DeeplinkRequest
request = record {
  start_date = 10;
  end_date = 12;
  limit = some 5;
  segmentation_filters = codes "a" ∷ codes "b" ∷ [];
  user_agent_filters = [];
  customer_ids = [];
}

is_accepted : validate_request raw ≡ ok request
unfolding validate_request data_api.Text.rstrip_by data_api.Text.lstrip_by data_api.Text.is_space
is_accepted = refl

validate_request-IsNormal_example : IsNormal request
validate_request-IsNormal_example = validate_request-IsNormal raw request is_accepted

abbrev params : DeeplinkParams
params = record {
  start_date = none;
  end_date = some 12;
  limit = none;
  segmentation = [];
  user_agent = codes "ios" ∷ [];
  customer_id = [];
}

abbrev execute : DeeplinkQuery → Result (List Row)
execute q = ok (row ∷ [])

abbrev account_map : AccountMapInMemory
account_map = init

abbrev model_dump : DeeplinkRequest → Dict Value
model_dump r = []

deeplinks_are_audited_example :
    (get_deeplink_1 no_error admin runtime account_map execute model_dump 12 params empty_trail
      ≡ answered no_error admin
          (λ e. refl)
          model_dump
          (codes "power_bi.deeplink_1")
          (deeplink_1 runtime account_map execute)
          (validate_request (request_data 12 params))
          empty_trail)
    × (get_deeplink_2 no_error admin runtime account_map execute model_dump 12 params empty_trail
        ≡ answered no_error admin
            (λ e. refl)
            model_dump
            (codes "power_bi.deeplink_2")
            (deeplink_2 runtime account_map execute)
            (validate_request (request_data 12 params))
            empty_trail)
deeplinks_are_audited_example =
    deeplinks_are_audited no_error admin (λ e. refl) model_dump runtime account_map execute 12
      params empty_trail refl

abbrev one_parameter : List (Text × Text)
one_parameter = (codes "b", codes "3") ∷ []

executions_are_audited_example :
    execute_dynamic_route env no_error admin
      (codes "alice")
      (codes "report")
      one_parameter
      (world, empty_trail)
    ≡ (
      (execute_route env (codes "alice") (codes "report") one_parameter world).0,
      (
        (execute_route env (codes "alice") (codes "report") one_parameter world).1,
        extended empty_trail (
            due_after admin
              (dynamic_route_name (codes "alice") (codes "report"))
              one_parameter
              (execute_route env (codes "alice") (codes "report") one_parameter world).0),
      ),
    )
executions_are_audited_example =
    executions_are_audited env no_error admin (λ e. refl) (codes "alice") (codes "report")
      one_parameter world empty_trail refl
