-- ===== src/Access/Schemas.antt =====
-- app/schemas/user.py and app/schemas/auth.py: the requests on users, with their validators.
use data_api.Prelude.{length, ltb, ℕ, none, all, some, not, Option, ◌&&◌}
use data_api.Text.{strip, Text}
use data_api.Access.Repository.{Change, unset, set}
use data_api.Access.Users.{UserRole}
use data_api.Dynamic.Request.{is_prefix_char, has_length}
use data_api.Errors.{Result, ok, err, ◌>>=◌, ◌>>◌, raise_if, validation_error}

-- What pydantic's EmailStr makes of a text, where `none` is an error; and `str.lower`.
pub record Texts : Type 0 where
  pub email_str : Text → Option Text
  pub lower : Text → Text

pub record UserCreate : Type 0 where
  pub email : Option Text
  pub username : Text
  pub password : Text

pub record UserAdminCreate : Type 0 where
  pub email : Option Text
  pub username : Text
  pub password : Text
  pub role : UserRole

pub record UserUpdate : Type 0 where
  pub username : Change (Option Text)

pub record UserAdminUpdate : Type 0 where
  pub email : Change (Option Text)
  pub username : Change (Option Text)
  pub password : Change (Option Text)
  pub role : Change (Option UserRole)

pub record LoginRequest : Type 0 where
  pub username : Text
  pub password : Text

pub record ChangePasswordRequest : Type 0 where
  pub current_password : Text
  pub new_password : Text

pub record TokenPair : Type 0 where
  pub access_token : Text
  pub refresh_token : Text
  pub token_type : Text
  pub expires_in : ℕ

abbrev pub validate_change :
    (Text → Result (Option Text)) → Change (Option Text) → Result (Change (Option Text))
validate_change validate unset = ok unset
validate_change validate (set none) = ok (set none)
validate_change validate (set (some value)) = do v ← validate value; ok (set v)

abbrev pub optional : (Text → Result Text) → Text → Result (Option Text)
optional validate value = do v ← validate value; ok (some v)

module _ (t : Texts) where
  open t use {email_str, lower}

  -- `pattern=r"^[a-zA-Z0-9_.-]+$"`, the lengths, and then `normalize_username`
  unfoldable pub validate_username : Text → Result Text
  unfolding is_prefix_char
  validate_username value = do
    raise_if (not (has_length 3 50 value && all is_prefix_char value)) validation_error
    ok (lower (strip value))

  abbrev pub or_validation_error : Option Text → Result (Option Text)
  or_validation_error none = err validation_error
  or_validation_error (some email) = ok (some (lower email))

  -- EmailStr, and then `normalize_email`
  unfoldable pub validate_email : Option Text → Result (Option Text)
  validate_email none = ok none
  validate_email (some value) = or_validation_error (email_str value)

  unfoldable pub validate_password : Text → Result Text
  validate_password value = do raise_if (not (has_length 12 128 value)) validation_error; ok value

  unfoldable pub validate_user_create : UserAdminCreate → Result UserAdminCreate
  unfolding validate_username validate_email validate_password
  validate_user_create payload = do
    email ← validate_email payload.email
    username ← validate_username payload.username
    password ← validate_password payload.password
    ok (record payload { email = email; username = username; password = password })

  unfoldable pub validate_user_update : UserUpdate → Result UserUpdate
  unfolding validate_username
  validate_user_update payload = do
    username ← validate_change (optional validate_username) payload.username
    ok (record { username = username })

  unfoldable pub validate_user_admin_update : UserAdminUpdate → Result UserAdminUpdate
  unfolding validate_username validate_email validate_password
  validate_user_admin_update payload = do
    email ← validate_change (λ e. validate_email (some e)) payload.email
    username ← validate_change (optional validate_username) payload.username
    password ← validate_change (optional validate_password) payload.password
    ok (record payload { email = email; username = username; password = password })

  unfoldable pub validate_login : LoginRequest → Result LoginRequest
  validate_login payload = do
    raise_if (not (has_length 1 50 payload.username && has_length 1 128 payload.password))
        validation_error
    ok (record payload { username = lower (strip payload.username) })

-- the lengths of RefreshRequest
unfoldable pub validate_refresh : Text → Result Text
validate_refresh refresh_token = do
  raise_if (not (ltb 0 (length refresh_token))) validation_error
  ok refresh_token

-- the lengths of ChangePasswordRequest
unfoldable pub validate_change_password : ChangePasswordRequest → Result ChangePasswordRequest
validate_change_password payload = do
  raise_if
      (not (has_length 1 128 payload.current_password && has_length 12 128 payload.new_password))
      validation_error
  ok payload
