-- ===== src/Access/Security.antt =====
-- app/core/security.py, with the settings of app/core/config.py that it reads. The libraries bcrypt,
-- hashlib, base64, PyJWT and uuid are parameters.
pub mod Tokens
use data_api.Prelude.{none, false, ◌+◌, if◌then◌else◌, [], ◌∷◌, ◌*◌, some, ℕ, Bool, Option}
use data_api.Text.{eq_text, codes, Text}
use data_api.Dict.{Dict, get, put}
use data_api.Errors.{ok, err, Result, authentication_error}
use data_api.Value.{Value, str, datetime}

pub data TokenType : Type 0 where
  access refresh : TokenType

abbrev pub token_type_value : TokenType → Text
token_type_value access = codes "access"
token_type_value refresh = codes "refresh"

pub record Settings : Type 0 where
  pub jwt_secret_key : Text
  pub jwt_algorithm : Text
  pub access_token_expire_minutes : ℕ
  pub refresh_token_expire_minutes : ℕ
  pub password_bcrypt_rounds : ℕ

-- digest: `sha256(s.encode("utf-8")).digest()`. b64encode. gensalt: from the rounds and a random
-- draw. hashpw, checkpw: of bcrypt, on prepared passwords. jwt_encode: payload, key, algorithm.
-- jwt_decode: token, key, algorithm and the time, where `none` is an InvalidTokenError. uuid4: a
-- random draw as text. uuid_str, uuid_of: `str(uuid)` and `UUID(text)`, where `none` is a ValueError.
-- lower: the method of `str`. A text of bytes is the list of the bytes.
pub record Crypto : Type 0 where
  pub digest : Text → Text
  pub b64encode : Text → Text
  pub gensalt : ℕ → ℕ → Text
  pub hashpw : Text → Text → Text
  pub checkpw : Text → Text → Bool
  pub jwt_encode : Dict Value → Text → Text → Text
  pub jwt_decode : Text → Text → Text → ℕ → Option (Dict Value)
  pub uuid4 : ℕ → Text
  pub uuid_str : ℕ → Text
  pub uuid_of : Text → Option ℕ
  pub lower : Text → Text

module _ (c : Crypto) where
  open c use {digest, b64encode, gensalt, hashpw, checkpw, jwt_encode, jwt_decode, uuid4}

  unfoldable pub prepare_password : Text → Text
  prepare_password password = b64encode (digest password)

  -- `draw` is what the random generator is at
  unfoldable pub hash_password : ℕ → Text → ℕ → Text
  unfolding prepare_password
  hash_password draw password rounds = hashpw (prepare_password password) (gensalt rounds draw)

  unfoldable pub verify_password : Text → Text → Bool
  unfolding prepare_password
  verify_password plain_password hashed_password =
      checkpw (prepare_password plain_password) hashed_password

  -- payload.update(extra_claims)
  unfoldable pub update_claims : Dict Value → Dict Value → Dict Value
  update_claims payload [] = payload
  update_claims payload ((k, v) ∷ claims) = update_claims (put payload k v) claims

  -- the payload of `create_token`; times are in seconds, a `timedelta` is a number of them
  unfoldable pub token_payload : ℕ → ℕ → Text → TokenType → ℕ → Dict Value → Dict Value
  unfolding update_claims
  token_payload now draw subject token_type expires_delta extra_claims =
      update_claims
        ((codes "sub", str subject)
          ∷ (codes "iat", datetime now)
          ∷ (codes "nbf", datetime now)
          ∷ (codes "exp", datetime (now + expires_delta))
          ∷ (codes "jti", str (uuid4 draw))
          ∷ (codes "typ", str (token_type_value token_type))
          ∷ [])
        extra_claims

  unfoldable pub create_token : ℕ → ℕ → Text → Settings → TokenType → ℕ → Dict Value → Text
  unfolding token_payload
  create_token now draw subject settings token_type expires_delta extra_claims =
      jwt_encode (token_payload now draw subject token_type expires_delta extra_claims)
        settings.jwt_secret_key settings.jwt_algorithm

  unfoldable pub create_access_token : ℕ → ℕ → Text → Settings → Dict Value → Text
  unfolding create_token
  create_access_token now draw subject settings extra_claims =
      create_token now draw subject settings access (settings.access_token_expire_minutes * 60)
        extra_claims

  unfoldable pub create_refresh_token : ℕ → ℕ → Text → Settings → Dict Value → Text
  unfolding create_token
  create_refresh_token now draw subject settings extra_claims =
      create_token now draw subject settings refresh (settings.refresh_token_expire_minutes * 60)
        extra_claims

  -- payload.get("typ") == expected_type
  abbrev pub is_text : Text → Option Value → Bool
  is_text t (some (str s)) = eq_text s t
  is_text t _ = false

  abbrev pub check_type : TokenType → Option (Dict Value) → Result (Dict Value)
  check_type expected_type none = err (authentication_error "Invalid or expired token")
  check_type expected_type (some payload) =
      if is_text (token_type_value expected_type) (get payload (codes "typ"))
      then ok payload
      else err (authentication_error "Invalid token type")

  unfoldable pub decode_token : ℕ → Text → Settings → TokenType → Result (Dict Value)
  decode_token now token settings expected_type =
      check_type expected_type (jwt_decode token settings.jwt_secret_key settings.jwt_algorithm now)

  -- `payload.get("sub")`, the test of its class, and `UUID(subject)`: as get_current_user and
  -- AuthService.refresh read it
  abbrev pub uuid_of_subject : Option Value → Result ℕ
  uuid_of_subject (some (str subject)) = elim (c.uuid_of subject) [
    | none ↦ err (authentication_error "Invalid token subject")
    | some user_id ↦ ok user_id
  ]
  uuid_of_subject _ = err (authentication_error "Invalid token subject")

  unfoldable pub subject_id : Dict Value → Result ℕ
  subject_id payload = uuid_of_subject (get payload (codes "sub"))
