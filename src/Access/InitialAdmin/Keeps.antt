-- ===== src/Access/InitialAdmin/Keeps.antt =====
-- The script keeps the table of users good.
use data_api.Prelude.{Option, none, some}
use data_api.Text.{Text}
use data_api.Access.Accounts.Keeps.{create_user-Keeps, update_user-Keeps}
use data_api.Access.Endpoints.Payloads.{result-Holds, create_name, admin_update_name}
use data_api.Access.InitialAdmin.{
  new_admin, promotion, create_initial_admin, get_admin_user, or_by_username, create_or_promote,
  unless_admin,
}
use data_api.Access.Names.{LowersAscii}
use data_api.Access.Repository.Keeps.{
  IsNamedChange, Keeps, AnyValue, IsNamed, IsSomeNamed, bind-Keeps, lift-Keeps, pure-Keeps,
  get_by_username-Keeps, get_by_email-Keeps,
}
use data_api.Access.Repository.Table.{IsUsername}
use data_api.Access.Schemas.{Texts, validate_user_create, validate_user_admin_update}
use data_api.Access.Security.{Settings, Crypto}
use data_api.Access.Users.{User}
use data_api.Session.{lift}

get_admin_user-Keeps : Keeps AnyValue get_admin_user
unfolding get_admin_user
get_admin_user-Keeps = record { keeps = λ w g. (g, tt) }

module _ (t : Texts) (c : Crypto) (settings : Settings) (ascii : LowersAscii t.lower)
    (password : Text) where
  or_by_username-Keeps :
      (o : Option User) → IsSomeNamed o → Keeps IsSomeNamed (or_by_username t c settings password o)
  or_by_username-Keeps none h = get_by_username-Keeps c.lower _
  or_by_username-Keeps (some u) h = pure-Keeps IsSomeNamed (some u) h

  create_or_promote-Keeps :
      (o : Option User) → Keeps IsNamed (create_or_promote t c settings password o)
  unfolding create_or_promote
  create_or_promote-Keeps none =
      bind-Keeps (λ p. IsUsername p.username) IsNamed
        (lift (validate_user_create t (new_admin t c settings password))) _
        (lift-Keeps _ _ (result-Holds _ _ (create_name t ascii (new_admin t c settings password))))
        (λ p name. create_user-Keeps c settings p name)
  create_or_promote-Keeps (some u) =
      bind-Keeps (λ p. IsNamedChange p.username) IsNamed
        (lift (validate_user_admin_update t (promotion t c settings password))) _
        (lift-Keeps _ _
          (result-Holds _ _ (admin_update_name t ascii (promotion t c settings password))))
        (λ p change. update_user-Keeps c settings u.id p change)

  unless_admin-Keeps : (o : Option User) → Keeps AnyValue (unless_admin t c settings password o)
  unfolding unless_admin
  unless_admin-Keeps (some a) = pure-Keeps AnyValue none tt
  unless_admin-Keeps none =
      bind-Keeps IsSomeNamed AnyValue _ _ (get_by_email-Keeps c.lower _) (λ by_email h.
        bind-Keeps IsSomeNamed AnyValue _ _ (or_by_username-Keeps by_email h) (λ existing k.
          bind-Keeps IsNamed AnyValue (create_or_promote t c settings password existing) _
            (create_or_promote-Keeps existing) (λ u _. pure-Keeps AnyValue (some u) tt)))

  pub create_initial_admin-Keeps : Keeps AnyValue (create_initial_admin t c settings password)
  unfolding create_initial_admin
  create_initial_admin-Keeps =
      bind-Keeps AnyValue AnyValue get_admin_user _ get_admin_user-Keeps
        (λ o _. unless_admin-Keeps o)
