-- ===== src/Access/InitialAdmin.antt =====
-- scripts/create_initial_admin.py, with `get_admin_user` of app/repositories/sqlalchemy/user.py.
pub mod Keeps
pub mod Rows
pub mod Leaves
pub mod Again
pub mod Creates
use data_api.Prelude.{Bool, true, false, Option, none, some, List, [], ◌∷◌, keep}
use data_api.Text.{Text, codes}
use data_api.Access.Accounts.{create_user, update_user}
use data_api.Access.Repository.{UserTable, unset, set, get_by_email, get_by_username, in_session}
use data_api.Access.Schemas.{
  Texts, UserAdminCreate, UserAdminUpdate, validate_user_create, validate_user_admin_update,
}
use data_api.Access.Security.{Settings, Crypto}
use data_api.Access.Users.{User, is_admin, admin}
use data_api.Errors.{ok}
use data_api.Session.{M, pure, lift, ◌>>=◌, ◌>>◌}

abbrev pub default_admin_email : Text
default_admin_email = codes "admin@example.com"

abbrev pub default_admin_username : Text
default_admin_username = codes "admin"

abbrev pub first : List User → Option User
first [] = none
first (u ∷ us) = some u

-- `.limit(1)`: any of the rows, here the first
unfoldable pub get_admin_user : M UserTable (Option User)
get_admin_user w = (ok (first (keep (λ u. is_admin u.role) w.session)), w)

module _ (t : Texts) (c : Crypto) (settings : Settings) (password : Text) where
  abbrev pub or_by_username : Option User → M UserTable (Option User)
  or_by_username (some u) = pure (some u)
  or_by_username none = get_by_username c.lower default_admin_username

  abbrev pub new_admin : UserAdminCreate
  new_admin = record {
    email = some default_admin_email;
    username = default_admin_username;
    password = password;
    role = admin;
  }

  abbrev pub promotion : UserAdminUpdate
  promotion = record {
    email = unset;
    username = unset;
    password = set (some password);
    role = set (some admin);
  }

  -- the payloads are models of pydantic, so they are validated
  unfoldable pub create_or_promote : Option User → M UserTable User
  unfolding validate_user_create validate_user_admin_update create_user update_user
  create_or_promote none = do
    payload ← lift (validate_user_create t new_admin)
    create_user c settings payload
  create_or_promote (some existing_user) = do
    payload ← lift (validate_user_admin_update t promotion)
    update_user c settings existing_user.id payload

  unfoldable pub unless_admin : Option User → M UserTable (Option User)
  unfolding create_or_promote
  unless_admin (some existing_admin) = pure none
  unless_admin none = do
    by_email ← get_by_email c.lower default_admin_email
    existing_user ← or_by_username by_email
    made ← create_or_promote existing_user
    pure (some made)

  -- the administrator that it made, or none where there was one; the password is `secrets.token_urlsafe`
  unfoldable pub create_initial_admin : M UserTable (Option User)
  unfolding get_admin_user unless_admin
  create_initial_admin = do existing_admin ← get_admin_user; unless_admin existing_admin

  -- in the session of the script
  unfoldable pub initial_admin : M UserTable (Option User)
  unfolding create_initial_admin in_session
  initial_admin = in_session create_initial_admin
