-- ===== src/Tests/Router.antt =====
-- Requests of a user on the routes of the API.
use data_api.Prelude.{[], ◌∷◌, ◌≡◌, refl}
use data_api.Text.{codes, eq_text}
use data_api.Errors.{ok, authorization_error}
use data_api.Router.{served, refused, dispatch, path_text, Method}
use data_api.Router.Guarded.{MayUse, dispatch-MayUse}
use data_api.Tests.Samples.{runtime}
use data_api.Tests.Users.{alice, bob}

-- his own route
bob_is_served :
    dispatch runtime Method.get (codes "bob" ∷ codes "report" ∷ []) (ok bob)
    ≡ served "execute_dynamic_route"
unfolding dispatch eq_text data_api.Text.rstrip_char data_api.Text.rstrip_by
    data_api.Text.starts_with
bob_is_served = refl

-- the update of his own profile is refused, since the path is not his; an administrator's is not
bob_is_refused :
    dispatch runtime Method.patch (codes "users" ∷ codes "me" ∷ []) (ok bob)
    ≡ refused (authorization_error "API permission denied")
unfolding dispatch eq_text data_api.Text.rstrip_char data_api.Text.rstrip_by
    data_api.Text.starts_with
bob_is_refused = refl

alice_is_served :
    dispatch runtime Method.patch (codes "users" ∷ codes "me" ∷ []) (ok alice) ≡ served "update_me"
unfolding dispatch eq_text
alice_is_served = refl

dispatch-MayUse_example :
    MayUse runtime
      (path_text runtime (codes "bob" ∷ codes "report" ∷ []))
      (ok bob)
      "execute_dynamic_route"
dispatch-MayUse_example =
    dispatch-MayUse runtime Method.get (codes "bob" ∷ codes "report" ∷ []) (ok bob)
      "execute_dynamic_route" bob_is_served
