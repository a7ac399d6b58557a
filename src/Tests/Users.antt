-- ===== src/Tests/Users.antt =====
-- The theorems on users, tokens and requests, at concrete inputs: a table with an administrator and a
-- user, and a token that holds what is read of it.
use mathlib.Core.Path.{subst}
use data_api.Prelude.{
  here, there, take, drop-append_of_length, take-append_of_length, drop, ◌&&◌, sym, ltb, ◌++◌, true,
  leb, if◌then◌else◌, ◌≡◌, none, map, length, Option, ℕ, ◌≤◌, ◌<◌, refl, arith, some, [], ◌∷◌,
}
use data_api.Text.{eq_text, Text, codes}
use data_api.Access.Auth.{refresh_tokens, login, get_current_user}
use data_api.Access.Auth.RoundTrip.{
  login-refresh_tokens, refreshed, login-get_current_user, current_user, IsUuid,
}
use data_api.Access.Endpoints.{remove_user, patch_user, read_user, post_user}
use data_api.Access.Endpoints.Guarded.{admin_requests-Refused, Refused, IsNoAdmin}
use data_api.Access.Endpoints.Owners.{check_api_permission_unique}
use data_api.Access.Endpoints.Reachable.{post_user_step, start, next, Reach, Reach-IsSound, IsSound}
use data_api.Access.Names.{ascii_lower, LowersAscii}
use data_api.Access.Permission.{check_api_permission}
use data_api.Access.Repository.{unset, get_by_username, UserTable}
use data_api.Access.Schemas.{Texts, UserAdminCreate, UserAdminUpdate, LoginRequest, TokenPair}
use data_api.Access.Security.{
  verify_password, create_token, decode_token, Settings, Crypto, access, refresh,
}
use data_api.Access.Security.Tokens.{IsJwt}
use data_api.Access.Users.{User, UserRole}
use data_api.Dict.{Dict, get}
use data_api.Errors.{authentication_error, err, ok}
use data_api.Tests.Samples.{runtime}
use data_api.Value.{Value, str, datetime}

abbrev text_of : Option Value → Text
text_of (some (str s)) = s
text_of _ = []

abbrev time_of : Option Value → ℕ
time_of (some (datetime n)) = n
time_of _ = 0

-- The token of a payload: its times, how long its type is, its type, its subject.
abbrev encode : Text → Text → ℕ → ℕ → Text
encode subject typ nbf exp = nbf ∷ exp ∷ length typ ∷ (typ ++ subject)

abbrev decode : Text → ℕ → Option (Dict Value)
decode (nbf ∷ exp ∷ n ∷ rest) now =
    if leb nbf now && ltb now exp
    then some ((codes "sub", str (drop n rest)) ∷ (codes "typ", str (take n rest)) ∷ [])
    else none
decode _ now = none

abbrev uuid_of : Text → Option ℕ
uuid_of (n ∷ []) = some n
uuid_of _ = none

abbrev pub crypto : Crypto
crypto = record {
  digest = λ s. s;
  b64encode = λ s. s;
  gensalt = λ rounds draw. draw ∷ [];
  hashpw = λ password salt. password;
  checkpw = eq_text;
  jwt_encode = λ p key algorithm.
      encode (text_of (get p (codes "sub"))) (text_of (get p (codes "typ")))
        (time_of (get p (codes "nbf"))) (time_of (get p (codes "exp")));
  jwt_decode = λ t key algorithm now. decode t now;
  uuid4 = λ n. n ∷ [];
  uuid_str = λ n. n ∷ [];
  uuid_of = uuid_of;
  lower = map ascii_lower;
}

abbrev pub settings : Settings
settings = record {
  jwt_secret_key = codes "key";
  jwt_algorithm = codes "HS256";
  access_token_expire_minutes = 30;
  refresh_token_expire_minutes = 60;
  password_bcrypt_rounds = 12;
}

decoded :
    (subject typ : Text) (now nbf exp : ℕ)
    → nbf ≤ now
    → now < exp
    → decode (encode subject typ nbf exp) now
      ≡ some ((codes "sub", str subject) ∷ (codes "typ", str typ) ∷ [])
decoded subject typ now nbf exp from until =
    let a : leb nbf now ≡ true = ground arith in
    let b : ltb now exp ≡ true = ground arith in
    rw
      (
        a,
        b,
        take-append_of_length (length typ) typ subject refl,
        drop-append_of_length (length typ) typ subject refl,
      )
      refl

jwt : IsJwt crypto settings
unfolding get eq_text
jwt = record {
  decode_encode = λ p subject typ now nbf exp claims is_sub is_typ is_iat is_nbf is_exp from until.
      (
        (codes "sub", str subject) ∷ (codes "typ", str typ) ∷ [],
        (rw (is_sub, is_typ, is_nbf, is_exp) (decoded subject typ now nbf exp from until)),
        refl,
        refl,
      );
}

uuid : IsUuid crypto
uuid = record { of_str = λ n. refl }

pub lowers : LowersAscii (map ascii_lower)
lowers = record { lowers = λ s h. refl }

abbrev pub texts : Texts
texts = record { email_str = λ s. some s; lower = map ascii_lower }

abbrev pub alice : User
alice = record {
  id = 1;
  email = none;
  username = codes "alice";
  hashed_password = codes "alice password";
  role = UserRole.admin;
}

abbrev pub bob : User
bob = record {
  id = 2;
  email = some (codes "bob@example.com");
  username = codes "bob";
  hashed_password = codes "bob password";
  role = UserRole.user;
}

abbrev table : UserTable
table = record {
  committed = alice ∷ bob ∷ [];
  session = alice ∷ bob ∷ [];
  others = [];
  next_id = 3;
  draws = 7;
  clock = 100;
}

-- a minute later
abbrev later : UserTable
later = record table { clock = 160 }

abbrev alice_token : Text
alice_token = encode (1 ∷ []) (codes "access") 100 1900

abbrev bob_token : Text
bob_token = encode (2 ∷ []) (codes "access") 100 1900

abbrev bob_login : LoginRequest
bob_login = record { username = codes "bob"; password = codes "bob password" }

abbrev bob_pair : TokenPair
bob_pair = record {
  access_token = bob_token;
  refresh_token = encode (2 ∷ []) (codes "refresh") 100 3700;
  token_type = codes "bearer";
  expires_in = 1800;
}

abbrev carol : UserAdminCreate
carol = record {
  email = none;
  username = codes "Carol";
  password = codes "carol password";
  role = UserRole.user;
}

abbrev nothing : UserAdminUpdate
nothing = record { email = unset; username = unset; password = unset; role = unset }

bob_logs_in : (login crypto settings bob_login table).0 ≡ ok bob_pair
unfolding login get_by_username eq_text data_api.Access.Security.verify_password
    data_api.Access.Security.create_access_token data_api.Access.Security.create_refresh_token get
    data_api.Dict.put
bob_logs_in = refl

login-get_current_user_example :
    (u : User) × ((get_by_username (map ascii_lower) (codes "bob") table).0 ≡ ok (some u))
    × (verify_password crypto (codes "bob password") u.hashed_password ≡ true)
    × (get_current_user crypto settings bob_pair.access_token later
        ≡ current_user crypto settings u.id later)
    × (refresh_tokens crypto settings bob_pair.access_token later
        ≡ (err (authentication_error "Invalid token type"), later))
login-get_current_user_example =
    login-get_current_user crypto settings jwt uuid bob_login table later bob_pair bob_logs_in
      (omega arith) (omega arith)

login-refresh_tokens_example :
    (u : User) × ((get_by_username (map ascii_lower) (codes "bob") table).0 ≡ ok (some u))
    × (refresh_tokens crypto settings bob_pair.refresh_token later
        ≡ refreshed crypto settings u.id later)
    × (get_current_user crypto settings bob_pair.refresh_token later
        ≡ (err (authentication_error "Invalid token type"), later))
login-refresh_tokens_example =
    login-refresh_tokens crypto settings jwt uuid bob_login table later bob_pair bob_logs_in
      (omega arith) (omega arith)

bob_is_current : (get_current_user crypto settings bob_token table).0 ≡ ok bob
unfolding get_current_user decode_token get eq_text data_api.Access.Security.subject_id
    data_api.Access.Repository.get_by_id
bob_is_current = refl

is_no_admin : IsNoAdmin (get_current_user crypto settings bob_token table).0
is_no_admin = subst IsNoAdmin (sym bob_is_current) refl

admin_requests-Refused_example :
    Refused table (post_user texts crypto settings bob_token carol table)
    × Refused table (read_user texts crypto settings bob_token 1 table)
    × Refused table (patch_user texts crypto settings bob_token 1 nothing table)
    × Refused table (remove_user texts crypto settings bob_token 1 table)
admin_requests-Refused_example =
    admin_requests-Refused texts crypto settings bob_token 1 carol nothing table is_no_admin

table-IsSound : IsSound table
unfolding eq_text
table-IsSound = (
  refl,
  (
    (((refl, refl), tt), (tt, tt)),
    (
      (omega arith, (refl, (refl, (refl, (refl, (refl, tt)))))),
      ((omega arith, (refl, (refl, (refl, tt)))), tt),
    ),
  ),
)

-- the administrator adds Carol
abbrev added : UserTable
added = (post_user texts crypto settings alice_token carol table).1

carol_is_added :
    map (λ u. u.username) added.committed ≡ codes "alice" ∷ codes "bob" ∷ codes "carol" ∷ []
unfolding post_user decode_token get eq_text data_api.Access.Security.subject_id
    data_api.Access.Repository.get_by_id get_by_username data_api.Text.strip data_api.Text.rstrip_by
    data_api.Text.lstrip_by data_api.Text.is_space data_api.Access.Repository.create
    data_api.Access.Repository.commit
carol_is_added = refl

reached : Reach texts crypto settings table added
reached = next start (post_user_step table alice_token carol)

Reach-IsSound_example : IsSound added
Reach-IsSound_example = Reach-IsSound texts crypto settings lowers reached table-IsSound

bob_is_permitted : (check_api_permission runtime bob (codes "/bob/report")).0 ≡ true
unfolding check_api_permission eq_text data_api.Text.rstrip_char data_api.Text.rstrip_by
    data_api.Text.starts_with
bob_is_permitted = refl

check_api_permission_unique_example : bob ≡ bob
unfolding post_user decode_token get eq_text data_api.Access.Security.subject_id
    data_api.Access.Repository.get_by_id get_by_username data_api.Text.strip data_api.Text.rstrip_by
    data_api.Text.lstrip_by data_api.Text.is_space data_api.Access.Repository.create
    data_api.Access.Repository.commit
check_api_permission_unique_example =
    check_api_permission_unique texts crypto settings runtime table added bob bob
      (codes "/bob/report") lowers (record { lowers = λ s h. refl }) table-IsSound reached
      (there (here refl)) (there (here refl)) refl refl bob_is_permitted bob_is_permitted
