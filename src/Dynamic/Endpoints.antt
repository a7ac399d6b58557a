-- ===== src/Dynamic/Endpoints.antt =====
-- app/api/v1/endpoints/dynamic_routes.py and dynamic_execute.py: the requests on dynamic routes, with
-- their entries in the audit log. Who may send them is in Access/Endpoints and Access/Permission.
pub mod Audited
pub mod Collisions
pub mod Execute
use data_api.Prelude.{
  ◌||◌, ℕ, String, Bool, true, false, not, ◌&&◌, any, Option, none, some, List, [], ◌∷◌, ◌++◌,
  if◌then◌else◌,
}
use data_api.Text.{Text, codes, eq_text, starts_with, rstrip_char}
use data_api.Access.Users.{User}
use data_api.Audit.{AuditLog, Trail, audit_dynamic_route_action}
use data_api.Dict.{Dict, keys}
use data_api.Dynamic.Parameters.{DynamicParameterDefinition}
use data_api.Dynamic.Routes.{Env, WriteRequest, create_route, update_route, delete_route, get_route}
use data_api.Dynamic.Store.{DynamicRoute, World}
use data_api.Errors.{Exc, app_error, conflict_error, validation_error, Result, ok, err}
use data_api.Session.{M, ◌>>=◌, ◌>>◌, pure, lift}

-- A route of the application: its path and methods, where it has them.
pub record RegisteredRoute : Type 0 where
  pub path : Option Text
  pub methods : Option (List Text)

-- `sub in s`
unfoldable pub contains : Text → Text → Bool
unfolding starts_with
contains sub [] = starts_with [] sub
contains sub (c ∷ s) = starts_with (c ∷ s) sub || contains sub s

abbrev pub has_get : Option (List Text) → Bool
has_get none = false
has_get (some methods) = any (eq_text (codes "GET")) methods

-- the test of the loop in `_reject_static_get_collision`
abbrev pub is_static_get : Text → Option Text → Option (List Text) → Bool
is_static_get effective_path none methods = false
is_static_get effective_path (some path) methods =
    eq_text path effective_path && has_get methods && not (contains (codes "{path:path}") path)

unfoldable pub reject_static_get_collision :
    List RegisteredRoute → Text → Text → Text → Result (Unit {0})
unfolding contains eq_text rstrip_char
reject_static_get_collision routes api_v1_prefix prefix path =
    let effective_path = rstrip_char b'/' api_v1_prefix ++ b'/' ∷ (prefix ++ b'/' ∷ path) in
    if any (λ r. is_static_get effective_path r.path r.methods) routes
    then err (
        conflict_error "Dynamic route conflicts with a static GET endpoint"
          "dynamic_route_path_conflict")
    else ok tt

-- The code of a DynamicSqlError: no other error's code begins like theirs.
abbrev pub dynamic_sql_code : Exc → Option String
dynamic_sql_code (app_error e) =
    if starts_with (codes e.code) (codes "dynamic_sql_") then some e.code else none
dynamic_sql_code _ = none

module _ (env : Env) where
  open env use {Json, model_validate}

  -- The routes, and the entries of the audit log. When an entry is committed, no change of a route is
  -- pending in the session: the service has settled it.
  abbrev pub Site : Type 0
  Site = World Json × Trail

  abbrev pub on_routes : {A : Type 0} → M (World Json) A → M Site A
  on_routes m (w, t) = let (r, w') = m w in (r, (w', t))

  abbrev pub on_trail : {A : Type 0} → M Trail A → M Site A
  on_trail m (w, t) = let (r, t') = m t in (r, (w, t'))

  unfoldable pub response_params : Dict Json → Result (Dict DynamicParameterDefinition)
  response_params [] = ok []
  response_params ((name, definition) ∷ ds) = elim (model_validate definition) [
    | none ↦ err validation_error
    | some d ↦ elim (response_params ds) [ err e ↦ err e | ok rest ↦ ok ((name, d) ∷ rest) ]
  ]

  -- The response is the route, with its definitions validated.
  pub record DynamicRouteResponse : Type 0 where
    pub route : DynamicRoute Json
    pub params : Dict DynamicParameterDefinition

  abbrev pub with_params :
      DynamicRoute Json → Result (Dict DynamicParameterDefinition) → Result DynamicRouteResponse
  with_params route (err e) = err e
  with_params route (ok params) = ok (record { route = route; params = params })

  unfoldable pub route_to_response : DynamicRoute Json → Result DynamicRouteResponse
  unfolding response_params
  route_to_response route = with_params route (response_params route.parameter_definitions)

  unfoldable pub get_dynamic_route : ℕ → M Site DynamicRouteResponse
  unfolding get_route route_to_response
  get_dynamic_route route_id = do
    route ← on_routes (get_route env route_id)
    lift (route_to_response route)

  module _ (flush_error : AuditLog → Option Exc) (actor : User) where
    -- the body of `except DynamicSqlError`, where there is a code
    unfoldable pub audit_refusal :
        String → Option ℕ → Text → Text → Option String → M Trail (Unit {0})
    unfolding audit_dynamic_route_action
    audit_refusal action route_id prefix path none = pure tt
    audit_refusal action route_id prefix path (some code) =
        audit_dynamic_route_action flush_error actor action route_id prefix path false (some code)

    -- the `except` of both methods that write, with its `raise`
    unfoldable pub settle_write :
        String → Option ℕ → WriteRequest → Result (DynamicRoute Json) → M Site (DynamicRoute Json)
    unfolding audit_refusal
    settle_write action route_id payload (ok route) = pure route
    settle_write action route_id payload (err e) = do
      on_trail (audit_refusal action route_id payload.prefix payload.path (dynamic_sql_code e))
      lift (err e)

    -- what follows a write
    unfoldable pub respond_to : String → DynamicRoute Json → M Site DynamicRouteResponse
    unfolding route_to_response audit_dynamic_route_action
    respond_to action route = do
      on_trail (
          audit_dynamic_route_action flush_error actor action (some route.id) route.prefix
            route.path true none)
      lift (route_to_response route)

    unfoldable pub audited_write :
        String
        → Option ℕ
        → WriteRequest
        → M (World Json) (DynamicRoute Json)
        → M Site DynamicRouteResponse
    unfolding respond_to settle_write
    audited_write action route_id payload write (w, t) =
        let (r, w') = write w in
        (settle_write action route_id payload r >>= respond_to action) (w', t)

    module _ (routes : List RegisteredRoute) (api_v1_prefix : Text) where
      unfoldable pub create_dynamic_route : WriteRequest → M Site DynamicRouteResponse
      unfolding reject_static_get_collision audited_write create_route
      create_dynamic_route payload = do
        lift (reject_static_get_collision routes api_v1_prefix payload.prefix payload.path)
        audited_write "create" none payload (create_route env payload actor.id)

      unfoldable pub update_dynamic_route : ℕ → WriteRequest → M Site DynamicRouteResponse
      unfolding reject_static_get_collision audited_write update_route
      update_dynamic_route route_id payload = do
        lift (reject_static_get_collision routes api_v1_prefix payload.prefix payload.path)
        audited_write "update" (some route_id) payload (update_route env route_id payload actor.id)

    unfoldable pub delete_dynamic_route : ℕ → M Site (Unit {0})
    unfolding delete_route audit_dynamic_route_action
    delete_dynamic_route route_id = do
      route ← on_routes (delete_route env route_id)
      on_trail (
          audit_dynamic_route_action flush_error actor "delete" (some route.id) route.prefix
            route.path true none)
