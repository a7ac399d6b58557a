-- ===== src/Dynamic/Endpoints/Audited.antt =====
-- What the requests that change routes leave in the audit log.
use data_api.Prelude.{Bool, ℕ, String, true, false, Option, none, some, List, [], ◌∷◌, ◌≡◌}
use data_api.Text.{Text}
use data_api.Access.Users.{User}
use data_api.Audit.{AuditLog, Trail, route_action, dynamic_route_name}
use data_api.Audit.Entries.{extended}
use data_api.Dynamic.Endpoints.{dynamic_sql_code, Site, DynamicRouteResponse, route_to_response}
use data_api.Dynamic.Routes.{Env, WriteRequest}
use data_api.Dynamic.Store.{DynamicRoute, World}
use data_api.Errors.{Exc, Result, ok, err}

abbrev entry : User → String → Option ℕ → Text → Text → Option String → Bool → AuditLog
entry actor action route_id prefix path error_code allowed = record {
  user_id = actor.id;
  username = actor.username;
  api_route = dynamic_route_name prefix path;
  parameters = route_action action route_id prefix path error_code;
  allowed = allowed;
  error_message = error_code;
}

abbrev refusal_entries : User → String → Option ℕ → WriteRequest → Option String → List AuditLog
refusal_entries actor action route_id payload none = []
refusal_entries actor action route_id payload (some code) =
    entry actor action route_id payload.prefix payload.path (some code) false ∷ []

-- The entries that a change is to leave: one that it was allowed, with the route as it is stored; one
-- that it was refused, with the error's code, where the SQL is not safe; and none after another error.
abbrev pub logged :
    {D : Type 0} → User → String → Option ℕ → WriteRequest → Result (DynamicRoute D) → List AuditLog
logged actor action route_id payload (ok route) =
    entry actor action (some route.id) route.prefix route.path none true ∷ []
logged actor action route_id payload (err e) =
    refusal_entries actor action route_id payload (dynamic_sql_code e)

-- The response to a route, or the exception.
abbrev pub responded :
    (env : Env) → Result (DynamicRoute env.Json) → Result (DynamicRouteResponse env)
responded env (err e) = err e
responded env (ok route) = route_to_response env route

module _ (env : Env) (flush_error : AuditLog → Option Exc) (actor : User)
    (writes : (e : AuditLog) → flush_error e ≡ none) where
  open env use {Json}

  -- What a request comes to, where the service's write comes to `p`.
  abbrev pub written :
      String
      → Option ℕ
      → WriteRequest
      → Result (DynamicRoute Json) × World Json
      → Site env
      → Result (DynamicRouteResponse env) × Site env
  written action route_id payload p s =
      (responded env p.0, (p.1, extended s.1 (logged actor action route_id payload p.0)))

  abbrev pub deleted :
      Result (DynamicRoute Json) × World Json → Trail → Result (Unit {0}) × Site env
  deleted (err e, w) t = (err e, (w, t))
  deleted (ok route, w) t = (
    ok tt,
    (w, extended t (entry actor "delete" (some route.id) route.prefix route.path none true ∷ [])),
  )
