-- ===== src/Router.antt =====
-- app/api/v1/router.py and the decorators of app/api/v1/endpoints: which route a request gets, and the
-- dependencies that decide whether it is served. A path is its segments after the prefix of the API.
pub mod Guarded
use data_api.Prelude.{
  Bool, true, false, not, ◌&&◌, String, Option, none, some, List, [], ◌∷◌, ◌++◌, map, is_empty,
  if◌then◌else◌,
}
use data_api.Text.{Text, codes, eq_text}
use data_api.Access.Auth.{require_roles}
use data_api.Access.Permission.{check_api_permission, user_if}
use data_api.Access.Users.{User, admin}
use data_api.Errors.{Exc, Result, ok, err, authentication_error, authorization_error}
use data_api.Text.Laws.{join}
use data_api.Value.{Runtime}

pub data Method : Type 0 where
  get post put patch delete : Method

-- `{name}`, `{name:path}`, or a literal
pub data Segment : Type 0 where
  literal : Text → Segment
  param rest : Segment

-- `Depends(require_api_permission)`, `Depends(get_current_user)`, `Depends(require_roles(UserRole.admin))`
pub data Guard : Type 0 where
  api_permission signed_in admin_only : Guard

-- name: the handler's.
pub record Route : Type 0 where
  pub method : Method
  pub path : List Segment
  pub guards : List Guard
  pub name : String

abbrev pub same_method : Method → Method → Bool
same_method get get = true
same_method post post = true
same_method put put = true
same_method patch patch = true
same_method delete delete = true
same_method _ _ = false

unfoldable pub matches : List Segment → List Text → Bool
matches [] [] = true
matches [] (s ∷ ss) = false
matches (literal t ∷ ps) [] = false
matches (literal t ∷ ps) (s ∷ ss) = eq_text s t && matches ps ss
matches (param ∷ ps) [] = false
matches (param ∷ ps) (s ∷ ss) = not (is_empty s) && matches ps ss
matches (rest ∷ ps) [] = false
matches (rest ∷ ps) (s ∷ ss) = true

abbrev health : List Route
health =
    record {
      method = get;
      path = literal (codes "health") ∷ [];
      guards = [];
      name = "health_check";
    }
    ∷ []

abbrev under : String → List Segment → List Segment
under prefix path = literal (codes prefix) ∷ path

abbrev route : Method → String → List Segment → List Guard → String → Route
route method prefix path guards name = record {
  method = method;
  path = under prefix path;
  guards = guards;
  name = name;
}

abbrev auth : List Route
auth =
    route post "auth" (literal (codes "login") ∷ []) [] "login"
    ∷ route post "auth" (literal (codes "token") ∷ []) [] "token"
    ∷ route post "auth" (literal (codes "refresh") ∷ []) [] "refresh_token"
    ∷ route get "auth" (literal (codes "me") ∷ []) (signed_in ∷ []) "get_me"
    ∷ route post "auth" (literal (codes "change-password") ∷ []) (signed_in ∷ []) "change_password"
    ∷ []

abbrev users : List Route
users =
    route post "users" [] (api_permission ∷ admin_only ∷ []) "create_user"
    ∷ route get "users" [] (api_permission ∷ admin_only ∷ []) "list_users"
    ∷ route patch "users" (literal (codes "me") ∷ []) (api_permission ∷ signed_in ∷ []) "update_me"
    ∷ route delete "users" (literal (codes "me") ∷ []) (api_permission ∷ signed_in ∷ []) "delete_me"
    ∷ route get "users" (param ∷ []) (api_permission ∷ admin_only ∷ []) "get_user"
    ∷ route patch "users" (param ∷ []) (api_permission ∷ admin_only ∷ []) "update_user"
    ∷ route delete "users" (param ∷ []) (api_permission ∷ admin_only ∷ []) "delete_user"
    ∷ []

abbrev data_rows : List Route
data_rows =
    route get "data" (literal (codes "users") ∷ []) (api_permission ∷ signed_in ∷ [])
      "list_users_data"
    ∷ []

abbrev power_bi : List Route
power_bi =
    route get "power_bi" (literal (codes "deeplink_1") ∷ []) (api_permission ∷ signed_in ∷ [])
      "get_deeplink_1"
    ∷ route get "power_bi" (literal (codes "deeplink_2") ∷ []) (api_permission ∷ signed_in ∷ [])
        "get_deeplink_2"
    ∷ []

abbrev dynamic_routes : List Route
dynamic_routes =
    route post "dynamic-routes" [] (admin_only ∷ []) "create_dynamic_route"
    ∷ route get "dynamic-routes" [] (admin_only ∷ []) "list_dynamic_routes"
    ∷ route get "dynamic-routes" (param ∷ []) (admin_only ∷ []) "get_dynamic_route"
    ∷ route put "dynamic-routes" (param ∷ []) (admin_only ∷ []) "update_dynamic_route"
    ∷ route delete "dynamic-routes" (param ∷ []) (admin_only ∷ []) "delete_dynamic_route"
    ∷ []

abbrev dynamic_execute : List Route
dynamic_execute =
    record {
      method = get;
      path = param ∷ rest ∷ [];
      guards = api_permission ∷ [];
      name = "execute_dynamic_route";
    }
    ∷ []

-- in the order of `include_router`
unfoldable pub api_router : List Route
api_router = health ++ auth ++ users ++ data_rows ++ power_bi ++ dynamic_routes ++ dynamic_execute

-- What Starlette's router finds: the first route of the path and the method; else that there is a route of the
-- path, or none. Its redirect of a path with another last slash is left out.
pub data Found : Type 0 where
  found : Route → Found
  other_method unknown : Found

abbrev pub else_other : Bool → Found → Found
else_other false f = f
else_other true (found r) = found r
else_other true other_method = other_method
else_other true unknown = other_method

unfoldable pub resolve : Method → List Text → List Route → Found
unfolding matches eq_text
resolve method path [] = unknown
resolve method path (r ∷ rs) =
    let later = resolve method path rs in
    if matches r.path path && same_method method r.method
    then found r
    else else_other (matches r.path path) later

-- What a request comes to, up to the handler's own body.
pub data Answer : Type 0 where
  served : String → Answer
  refused : Exc → Answer
  method_not_allowed not_found : Answer

module _ (rt : Runtime) where
  -- the path of the request, less the prefix
  abbrev pub path_text : List Text → Text
  path_text path = 47 ∷ join 47 path

  -- `caller`: what `get_current_user` comes to, the user of the token or an exception
  unfoldable pub passes : Guard → Result User → Text → Result User
  unfolding check_api_permission require_roles
  passes guard (err e) path = err e
  passes signed_in (ok u) path = ok u
  passes admin_only (ok u) path = require_roles (admin ∷ []) u
  passes api_permission (ok u) path = user_if (check_api_permission rt u path).0 u

  abbrev pub and_then : Result User → Answer → Answer
  and_then (ok u) a = a
  and_then (err e) a = refused e

  -- the dependencies, those of the router first
  unfoldable pub admit : List Guard → Result User → Text → String → Answer
  unfolding passes
  admit [] caller path name = served name
  admit (g ∷ gs) caller path name = and_then (passes g caller path) (admit gs caller path name)

  abbrev pub answer_of : Found → Result User → Text → Answer
  unfolding admit
  answer_of (found r) caller path = admit r.guards caller path r.name
  answer_of other_method caller path = method_not_allowed
  answer_of unknown caller path = not_found

  unfoldable pub dispatch : Method → List Text → Result User → Answer
  unfolding resolve answer_of api_router
  dispatch method path caller = answer_of (resolve method path api_router) caller (path_text path)
