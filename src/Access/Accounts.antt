-- ===== src/Access/Accounts.antt =====
-- UserService of app/services/user.py.
pub mod Keeps
use data_api.Prelude.{◌==◌, true, false, ℕ, none, if◌then◌else◌, Bool, some, not, Option}
use data_api.Text.{eq_text, codes, Text}
use data_api.Access.Auth.{committing, draw}
use data_api.Access.Repository.{
  UserTable, Change, unset, set, UserValues, get_by_id, get_by_email, get_by_username, create,
  update, delete, commit,
}
use data_api.Access.Schemas.{
  optional, Texts, UserAdminCreate, UserUpdate, UserAdminUpdate, ChangePasswordRequest,
}
use data_api.Access.Security.{Settings, Crypto, hash_password, verify_password}
use data_api.Access.Users.{UserRole, User}
use data_api.Errors.{authentication_error, conflict_error, not_found_error, Result, ok, err}
use data_api.Session.{◌>>=◌, ◌>>◌, raise_if, M, pure, lift}

-- `existing is not None and (current_user is None or existing.id != current_user.id)`
abbrev pub is_taken : Option User → Option User → Bool
is_taken none current = false
is_taken (some existing) none = true
is_taken (some existing) (some current) = not (existing.id == current.id)

abbrev pub same_text : Option Text → Text → Bool
same_text none t = false
same_text (some s) t = eq_text t s

-- `current_user is None or email != current_user.email`, and likewise of the name
abbrev pub is_new_email : Text → Option User → Bool
is_new_email email none = true
is_new_email email (some current) = not (same_text current.email email)

abbrev pub is_new_username : Text → Option User → Bool
is_new_username username none = true
is_new_username username (some current) = not (eq_text username current.username)

abbrev pub given : {A : Type 0} → Change (Option A) → Option A
given unset = none
given (set o) = o

abbrev pub or_not_found : Option User → Result User
or_not_found none = err (not_found_error "User")
or_not_found (some u) = ok u

abbrev pub no_values : UserValues
no_values = record { email = unset; username = unset; hashed_password = unset; role = unset }

unfoldable pub get_user : ℕ → M UserTable User
get_user user_id = do found ← get_by_id user_id; lift (or_not_found found)

unfoldable pub delete_account : User → M UserTable (Unit {0})
delete_account current_user = do delete current_user; commit

unfoldable pub delete_user : ℕ → M UserTable (Unit {0})
delete_user user_id = do found ← get_by_id user_id; u ← lift (or_not_found found); delete u; commit

-- the `User(...)` of `create_user`; the database gives it its id
abbrev pub new_user : UserAdminCreate → Text → User
new_user payload hashed_password = record {
  id = 0;
  email = payload.email;
  username = payload.username;
  hashed_password = hashed_password;
  role = payload.role;
}

-- the values that `update_user` sets
abbrev pub admin_values : UserAdminUpdate → Change Text → UserValues
admin_values payload hashed_password = record {
  email = payload.email;
  username = payload.username;
  hashed_password = hashed_password;
  role = payload.role;
}

module _ (c : Crypto) (settings : Settings) where
  unfoldable pub ensure_unique_email : Option Text → Option User → M UserTable (Unit {0})
  ensure_unique_email none current_user = pure tt
  ensure_unique_email (some email) current_user =
      if is_new_email email current_user
      then (do
        existing ← get_by_email c.lower email
        raise_if (is_taken existing current_user)
            (conflict_error "Email is already registered" "email_exists"))
      else pure tt

  unfoldable pub ensure_unique_username : Option Text → Option User → M UserTable (Unit {0})
  ensure_unique_username none current_user = pure tt
  ensure_unique_username (some username) current_user =
      if is_new_username username current_user
      then (do
        existing ← get_by_username c.lower username
        raise_if (is_taken existing current_user)
            (conflict_error "Username is already registered" "username_exists"))
      else pure tt

  unfoldable pub ensure_unique_identity :
      Option Text → Option Text → Option User → M UserTable (Unit {0})
  unfolding ensure_unique_email ensure_unique_username
  ensure_unique_identity email username current_user = do
    ensure_unique_email email current_user
    ensure_unique_username username current_user

  -- a hash of the password, with a new salt
  unfoldable pub hashed : Text → M UserTable Text
  unfolding draw
  hashed password = do
    salt ← draw
    pure (hash_password c salt password settings.password_bcrypt_rounds)

  unfoldable pub create_user : UserAdminCreate → M UserTable User
  unfolding ensure_unique_identity hashed committing
  create_user payload = do
    ensure_unique_identity payload.email (some payload.username) none
    hashed_password ← hashed payload.password
    committing "User already exists" (create (new_user payload hashed_password))

  -- str(None) is "None"
  abbrev pub str_of : Option Text → Text
  str_of none = codes "None"
  str_of (some t) = t

  -- the test of `update_profile`
  unfoldable pub ensure_free_username : Change (Option Text) → User → M UserTable (Unit {0})
  ensure_free_username unset current_user = pure tt
  ensure_free_username (set username) current_user =
      if same_text username current_user.username then pure tt else do
        existing ← get_by_username c.lower (str_of username)
        raise_if (is_taken existing (some current_user))
            (conflict_error "Username is already registered" "username_exists")

  unfoldable pub update_profile : User → UserUpdate → M UserTable User
  unfolding ensure_free_username committing
  update_profile current_user payload = do
    ensure_free_username payload.username current_user
    committing "User profile conflicts with existing data"
        (update current_user (record no_values { username = payload.username }))

  unfoldable pub change_password : User → ChangePasswordRequest → M UserTable (Unit {0})
  unfolding hashed
  change_password current_user payload = do
    raise_if (not (verify_password c payload.current_password current_user.hashed_password))
        (authentication_error "Invalid current password")
    hashed_password ← hashed payload.new_password
    update current_user (record no_values { hashed_password = set hashed_password })
    commit

  unfoldable pub hashed_change : Option Text → M UserTable (Change Text)
  unfolding hashed
  hashed_change none = pure unset
  hashed_change (some password) = do hashed_password ← hashed password; pure (set hashed_password)

  unfoldable pub update_user : ℕ → UserAdminUpdate → M UserTable User
  unfolding ensure_unique_identity hashed_change committing
  update_user user_id payload = do
    found ← get_by_id user_id
    u ← lift (or_not_found found)
    ensure_unique_identity (given payload.email) (given payload.username) (some u)
    hashed_password ← hashed_change (given payload.password)
    committing "User conflicts with existing data" (update u (admin_values payload hashed_password))
