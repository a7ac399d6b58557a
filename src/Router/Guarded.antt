-- ===== src/Router/Guarded.antt =====
-- Who is served what.
use mathlib.Core.Path.{subst}
use package.text.Mathlib.Text.{◌==◌}
use data_api.Prelude.{
  ap, if◌then◌else◌, Bool, true, false, not, ◌&&◌, String, List, [], ◌∷◌, ◌≡◌, refl, all, any, ◌⊎◌,
  inl, inr,
}
use data_api.Text.{Text}
use data_api.Access.Auth.{same_role, require_roles}
use data_api.Access.Permission.{user_if, check_api_permission}
use data_api.Access.Users.{User, UserRole, is_admin, admin, user}
use data_api.Errors.{authorization_error, Result, ok, err}
use data_api.Router.{
  answer_of, Route, Method, Guard, api_permission, signed_in, admin_only, Found, found,
  other_method, unknown, method_not_allowed, not_found, and_then, resolve, api_router, Answer,
  served, refused, passes, admit, dispatch, path_text, matches, same_method, else_other,
}
use data_api.Value.{Runtime}

abbrev pub is_one_of : String → List String → Bool
is_one_of name names = any (λ n. n == name) names

-- the handlers for everyone, and those for every user
abbrev pub public : List String
public = "health_check" ∷ "login" ∷ "token" ∷ "refresh_token" ∷ []

abbrev pub own : List String
own = "get_me" ∷ "change_password" ∷ []

-- the first guard of a route, by its name
abbrev guarded : List Guard → String → Bool
guarded [] name = is_one_of name public
guarded (signed_in ∷ gs) name = is_one_of name own
guarded (api_permission ∷ gs) name = true
guarded (admin_only ∷ gs) name = true

abbrev is_guarded : Route → Bool
is_guarded r = guarded r.guards r.name

-- of what the router finds
abbrev IsGuarded : Found → Type 0
IsGuarded (found r) = is_guarded r ≡ true
IsGuarded other_method = Unit
IsGuarded unknown = Unit

all_guarded : all is_guarded api_router ≡ true
unfolding api_router
all_guarded = refl

else_other-IsGuarded : (b : Bool) (f : Found) → IsGuarded f → IsGuarded (else_other b f)
else_other-IsGuarded false f h = h
else_other-IsGuarded true (found r) h = h
else_other-IsGuarded true other_method h = tt
else_other-IsGuarded true unknown h = tt

first-IsGuarded :
    (a b : Bool) (r : Route) (f : Found)
    → is_guarded r ≡ true
    → IsGuarded f
    → IsGuarded (if a then found r else else_other b f)
first-IsGuarded true b r f h k = h
first-IsGuarded false b r f h k = else_other-IsGuarded b f k

resolve-IsGuarded :
    (method : Method) (path : List Text) (rs : List Route)
    → all is_guarded rs ≡ true
    → IsGuarded (resolve method path rs)
unfolding resolve
resolve-IsGuarded method path [] h = tt
resolve-IsGuarded method path (r ∷ rs) h =
    let (x, y) = both (is_guarded r) (all is_guarded rs) h in
    first-IsGuarded (matches r.path path && same_method method r.method) (matches r.path path) r
      (resolve method path rs) x (resolve-IsGuarded method path rs y)
  where
    both : (a b : Bool) → (a && b) ≡ true → (a ≡ true) × (b ≡ true)
    both true b e = (refl, e)
    both false b e = cc

module _ (rt : Runtime) (path : Text) where
  -- a caller who may be served by the handler
  abbrev pub MayUse : Result User → String → Type 0
  MayUse caller name =
      (is_one_of name public ≡ true)
      ⊎ ((u : User) × (caller ≡ ok u)
          × ((is_one_of name own ≡ true) ⊎ ((check_api_permission rt u path).0 ≡ true)))

  and_then-served :
      (r : Result User) (a : Answer) (name : String)
      → and_then rt r a ≡ served name
      → (u : User) × (r ≡ ok u) × (a ≡ served name)
  and_then-served (ok u) a name e = (u, refl, e)
  and_then-served (err x) a name e = cc

  served_name : Answer → String
  served_name (served name) = name
  served_name (refused e) = ""
  served_name method_not_allowed = ""
  served_name not_found = ""

  -- what is served is the route's own handler
  admit-served :
      (gs : List Guard) (caller : Result User) (route_name name : String)
      → admit rt gs caller path route_name ≡ served name
      → route_name ≡ name
  unfolding admit served_name
  admit-served [] caller route_name name e = ap served_name e
  admit-served (g ∷ gs) caller route_name name e =
      let (u, passed, e') =
        and_then-served (passes rt g caller path) (admit rt gs caller path route_name) name e in
      admit-served gs caller route_name name e'

  require_roles-admin : (u v : User) → require_roles (admin ∷ []) u ≡ ok v → is_admin u.role ≡ true
  unfolding require_roles
  require_roles-admin u v e = by_role u.role e
    where
      by_role :
          (role : UserRole)
          → (if not (any (same_role role) (admin ∷ []))
              then err (authorization_error "Not enough permissions")
              else ok u)
            ≡ ok v
          → is_admin role ≡ true
      by_role admin f = refl
      by_role user f = cc

  check_api_permission-admin :
      (u : User) → is_admin u.role ≡ true → (check_api_permission rt u path).0 ≡ true
  unfolding check_api_permission
  check_api_permission-admin u h = rw h refl

  admit-MayUse :
      (gs : List Guard) (caller : Result User) (route_name name : String)
      → guarded gs route_name ≡ true
      → admit rt gs caller path route_name ≡ served name
      → MayUse caller name
  unfolding admit passes
  admit-MayUse [] caller route_name name h e =
      inl (subst (λ n. is_one_of n public ≡ true) (admit-served [] caller route_name name e) h)
  admit-MayUse (signed_in ∷ gs) (err x) route_name name h e = cc
  admit-MayUse (signed_in ∷ gs) (ok u) route_name name h e = inr (
    u,
    refl,
    inl (subst (λ n. is_one_of n own ≡ true) (admit-served gs (ok u) route_name name e) h),
  )
  admit-MayUse (api_permission ∷ gs) (err x) route_name name h e = cc
  admit-MayUse (api_permission ∷ gs) (ok u) route_name name h e =
      inr (u, refl, inr (permitted (check_api_permission rt u path).0 e))
    where
      permitted :
          (b : Bool)
          → and_then rt (user_if b u) (admit rt gs (ok u) path route_name) ≡ served name
          → b ≡ true
      permitted true f = refl
      permitted false f = cc
  admit-MayUse (admin_only ∷ gs) (err x) route_name name h e = cc
  admit-MayUse (admin_only ∷ gs) (ok u) route_name name h e =
      let (v, passed, e') =
        and_then-served (require_roles (admin ∷ []) u) (admit rt gs (ok u) path route_name) name
          e in
      inr (u, refl, inr (check_api_permission-admin u (require_roles-admin u v passed)))

-- A request is served only by a handler for everyone (the health check, the login, the token and its refresh),
-- or to the user of a valid token, whom the permission check admits to the path unless the handler is one of
-- `get_me` and `change_password`. With an exception in place of the user, nothing else is served.
pub dispatch-MayUse :
    (rt : Runtime) (method : Method) (path : List Text) (caller : Result User) (name : String)
    → dispatch rt method path caller ≡ served name
    → MayUse rt (path_text rt path) caller name
unfolding dispatch
dispatch-MayUse rt method path caller name e =
    by_found (resolve method path api_router) (resolve-IsGuarded method path api_router all_guarded)
      e
  where
    by_found :
        (f : Found)
        → IsGuarded f
        → answer_of rt f caller (path_text rt path) ≡ served name
        → MayUse rt (path_text rt path) caller name
    by_found (found r) h e = admit-MayUse rt (path_text rt path) r.guards caller r.name name h e
    by_found other_method h e = cc
    by_found unknown h e = cc
