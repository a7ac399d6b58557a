-- ===== src/Access/Auth.antt =====
-- app/services/auth.py, with `get_current_user` and `require_roles` of app/dependencies/auth.py.
pub mod RoundTrip
use data_api.Prelude.{
  any, ◌+◌, not, none, [], ◌∷◌, ◌*◌, ℕ, true, some, if◌then◌else◌, false, String, Option, List,
  Bool,
}
use data_api.Text.{codes, Text}
use data_api.Access.Repository.{
  UserTable, get_by_id, get_by_email, get_by_username, create, commit, rollback,
}
use data_api.Access.Schemas.{optional, Texts, UserCreate, LoginRequest, TokenPair}
use data_api.Access.Security.{
  Settings, Crypto, access, refresh, hash_password, verify_password, create_access_token,
  create_refresh_token, decode_token, subject_id,
}
use data_api.Access.Users.{UserRole, user, admin, User}
use data_api.Dict.{Dict}
use data_api.Errors.{
  Exc, authentication_error, authorization_error, conflict_error, integrity_error, Result, ok, err,
}
use data_api.Session.{◌>>=◌, ◌>>◌, raise_if, M, pure, lift}
use data_api.Value.{Value, str}

abbrev pub is_some : Option User → Bool
is_some none = false
is_some (some u) = true

abbrev pub settle_conflict : String → Result User → UserTable → Result User × UserTable
settle_conflict message (ok u) w = (ok u, w)
settle_conflict message (err integrity_error) w =
    (err (conflict_error message "conflict"), rollback w)
settle_conflict message (err e) w = (err e, w)

-- `try: u = write; commit` with `except IntegrityError: rollback; raise ConflictError(message)`
unfoldable pub committing : String → M UserTable User → M UserTable User
committing message write w =
    let (r, w') = (write >>= λ u. commit >> pure u) w in settle_conflict message r w'

-- the random draw of a salt or of an id
unfoldable pub draw : M UserTable ℕ
draw w = (ok w.draws, record w { draws = w.draws + 1 })

abbrev pub now : M UserTable ℕ
now w = (ok w.clock, w)

abbrev pub role_value : UserRole → Text
role_value user = codes "user"
role_value admin = codes "admin"

abbrev pub or_unauthenticated : String → Option User → Result User
or_unauthenticated message none = err (authentication_error message)
or_unauthenticated message (some u) = ok u

module _ (c : Crypto) (settings : Settings) where
  -- `get_by_email` where there is an email
  abbrev pub get_by_optional_email : Option Text → M UserTable (Option User)
  get_by_optional_email none = pure none
  get_by_optional_email (some email) = get_by_email c.lower email

  unfoldable pub register : UserCreate → M UserTable User
  unfolding committing draw
  register payload = do
    by_email ← get_by_optional_email payload.email
    raise_if (is_some by_email) (conflict_error "Email is already registered" "email_exists")
    by_username ← get_by_username c.lower payload.username
    raise_if (is_some by_username)
        (conflict_error "Username is already registered" "username_exists")
    salt ← draw
    committing "User already exists" (
        create (record {
          id = 0;
          email = payload.email;
          username = payload.username;
          hashed_password = hash_password c salt payload.password settings.password_bcrypt_rounds;
          role = user;
        }))

  abbrev pub extra_claims : User → Dict Value
  extra_claims u = (codes "role", str (role_value u.role)) ∷ (codes "username", str u.username) ∷ []

  unfoldable pub create_token_pair : User → M UserTable TokenPair
  unfolding draw
  create_token_pair u = do
    t ← now
    first ← draw
    second ← draw
    pure (record {
      access_token = create_access_token c t first (c.uuid_str u.id) settings (extra_claims u);
      refresh_token = create_refresh_token c t second (c.uuid_str u.id) settings (extra_claims u);
      token_type = codes "bearer";
      expires_in = settings.access_token_expire_minutes * 60;
    })

  abbrev pub invalid_login : Exc
  invalid_login = authentication_error "Invalid username or password"

  unfoldable pub authenticated : Text → Option User → Result User
  authenticated password none = err invalid_login
  authenticated password (some u) =
      if verify_password c password u.hashed_password then ok u else err invalid_login

  unfoldable pub login : LoginRequest → M UserTable TokenPair
  unfolding authenticated create_token_pair
  login payload = do
    found ← get_by_username c.lower payload.username
    u ← lift (authenticated payload.password found)
    create_token_pair u

  unfoldable pub refresh_tokens : Text → M UserTable TokenPair
  unfolding create_token_pair
  refresh_tokens refresh_token = do
    t ← now
    payload ← lift (decode_token c t refresh_token settings refresh)
    user_id ← lift (subject_id c payload)
    found ← get_by_id user_id
    u ← lift (or_unauthenticated "Invalid refresh token" found)
    create_token_pair u

  unfoldable pub get_current_user : Text → M UserTable User
  get_current_user token = do
    t ← now
    payload ← lift (decode_token c t token settings access)
    user_id ← lift (subject_id c payload)
    found ← get_by_id user_id
    lift (or_unauthenticated "Invalid authentication credentials" found)

abbrev pub same_role : UserRole → UserRole → Bool
same_role user user = true
same_role admin admin = true
same_role _ _ = false

unfoldable pub require_roles : List UserRole → User → Result User
require_roles allowed_roles current_user =
    if not (any (same_role current_user.role) allowed_roles)
    then err (authorization_error "Not enough permissions")
    else ok current_user
