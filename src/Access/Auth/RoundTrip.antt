-- ===== src/Access/Auth/RoundTrip.antt =====
-- What the tokens of a login are good for.
use mathlib.Core.Path.{subst}
use data_api.Prelude.{
  none, sym, arith, true, Option, some, ℕ, ◌+◌, ◌*◌, ◌≤◌, ◌<◌, ◌≡◌, refl, ap, ◌∙◌,
}
use data_api.Text.{Text, codes, eq_text}
use data_api.Access.Auth.{
  draw, extra_claims, create_token_pair, authenticated, login, refresh_tokens, get_current_user,
  or_unauthenticated,
}
use data_api.Access.Repository.{UserTable, get_by_id, get_by_username}
use data_api.Access.Schemas.{LoginRequest, TokenPair}
use data_api.Access.Security.{
  token_payload, update_claims, Settings, Crypto, TokenType, access, refresh, create_token,
  create_access_token, create_refresh_token, decode_token, subject_id, uuid_of_subject,
  verify_password,
}
use data_api.Access.Security.Tokens.{
  other_type, IsJwt, AreExtra, AreClaims, decode_token-create_token,
}
use data_api.Access.Users.{User}
use data_api.Dict.{Dict, get, put}
use data_api.Errors.{Exc, authentication_error, Result, ok, err}
use data_api.Session.{M, continue, ◌>>=◌, lift}
use data_api.Value.{Value, str}

module _ {S A B : Type 0} where
  continue-eq-ok :
      (r : Result A) (f : A → M S B) (w : S) (b : B)
      → (continue r f w).0 ≡ ok b
      → (a : A) × (r ≡ ok a) × ((f a w).0 ≡ ok b)
  continue-eq-ok (ok a) f w b h = (a, refl, h)
  continue-eq-ok (err e) f w b h = cc

  continue_ok : (r : Result A) (f : A → M S B) (w : S) (a : A) → r ≡ ok a → continue r f w ≡ f a w
  continue_ok r f w a h = ap (λ x. continue x f w) h

  continue_err :
      (r : Result A) (f : A → M S B) (w : S) (e : Exc) → r ≡ err e → continue r f w ≡ (err e, w)
  continue_err r f w e h = ap (λ x. continue x f w) h

-- What UUID documents: `UUID(str(u))` is `u`.
pub record IsUuid (c : Crypto) : Type 0 where
  pub of_str : (n : ℕ) → c.uuid_of (c.uuid_str n) ≡ some n

extra_claims-AreExtra : (c : Crypto) (s : Settings) (u : User) → AreExtra (extra_claims c s u)
unfolding eq_text
extra_claims-AreExtra c s u = (refl, (refl, tt))

-- The claims of a token of a login.
payload-AreClaims :
    (c : Crypto) (s : Settings) (u : User) (now draw delta : ℕ) (subject : Text) (t : TokenType)
    → AreClaims (token_payload c now draw subject t delta (extra_claims c s u))
unfolding token_payload update_claims put eq_text
payload-AreClaims c s u now drawn delta subject t =
    (refl, (refl, (refl, (refl, (refl, (refl, (refl, (refl, tt))))))))

module _ (c : Crypto) (s : Settings) where
  -- The pair is what `create_token_pair` makes for the user at the time and draws of `w`.
  abbrev pub IsPairOf : User → UserTable → TokenPair → Type 0
  IsPairOf u w pair =
      (pair.access_token
        ≡ create_access_token c w.clock w.draws (c.uuid_str u.id) s (extra_claims c s u))
      × (pair.refresh_token
          ≡ create_refresh_token c w.clock (w.draws + 1) (c.uuid_str u.id) s (extra_claims c s u))

  subject_of :
      (uuid : IsUuid c) (p : Dict Value) (u : User)
      → get p (codes "sub") ≡ some (str (c.uuid_str u.id))
      → subject_id c p ≡ ok u.id
  unfolding subject_id
  subject_of uuid p u e = ap (uuid_of_subject c) e ∙ rw (uuid.of_str u.id, uuid_of_subject) refl

  create_token-accepted :
      (jwt : IsJwt c s) (uuid : IsUuid c) (u : User) (now draw delta n : ℕ) (t : TokenType)
      → now ≤ n
      → n < now + delta
      → (p : Dict Value) × (decode_token c n
            (create_token c now draw (c.uuid_str u.id) s t delta (extra_claims c s u))
            s
            t
          ≡ ok p)
        × (subject_id c p ≡ ok u.id)
        × (decode_token c n
              (create_token c now draw (c.uuid_str u.id) s t delta (extra_claims c s u))
              s
              (other_type t)
            ≡ err (authentication_error "Invalid token type"))
  create_token-accepted jwt uuid u now draw delta n t from until =
      let (p, e, sub, wrong) =
        decode_token-create_token c s jwt now n draw delta (c.uuid_str u.id) t (extra_claims c s u)
          (extra_claims-AreExtra c s u) (payload-AreClaims c s u now draw delta (c.uuid_str u.id) t)
          from until in
      (p, e, subject_of uuid p u sub, wrong)

  -- the user of the id as the table has it, or a refusal
  abbrev pub current_user : ℕ → M UserTable User
  current_user user_id = do
    found ← get_by_id user_id
    lift (or_unauthenticated "Invalid authentication credentials" found)

  -- new tokens for the user of the id, or a refusal
  abbrev pub refreshed : ℕ → M UserTable TokenPair
  refreshed user_id = do
    found ← get_by_id user_id
    u ← lift (or_unauthenticated "Invalid refresh token" found)
    create_token_pair c s u

  get_current_user_lem :
      (token : Text) (x : UserTable) (p : Dict Value) (user_id : ℕ)
      → decode_token c x.clock token s access ≡ ok p
      → subject_id c p ≡ ok user_id
      → get_current_user c s token x ≡ current_user user_id x
  unfolding get_current_user
  get_current_user_lem token x p user_id d i =
      continue_ok (decode_token c x.clock token s access) _ x p d
      ∙ continue_ok (subject_id c p) _ x user_id i

  refresh_tokens_lem :
      (token : Text) (x : UserTable) (p : Dict Value) (user_id : ℕ)
      → decode_token c x.clock token s refresh ≡ ok p
      → subject_id c p ≡ ok user_id
      → refresh_tokens c s token x ≡ refreshed user_id x
  unfolding refresh_tokens
  refresh_tokens_lem token x p user_id d i =
      continue_ok (decode_token c x.clock token s refresh) _ x p d
      ∙ continue_ok (subject_id c p) _ x user_id i

  refused_as_access :
      (token : Text) (x : UserTable) (e : Exc)
      → decode_token c x.clock token s access ≡ err e
      → get_current_user c s token x ≡ (err e, x)
  unfolding get_current_user
  refused_as_access token x e d = continue_err (decode_token c x.clock token s access) _ x e d

  refused_as_refresh :
      (token : Text) (x : UserTable) (e : Exc)
      → decode_token c x.clock token s refresh ≡ err e
      → refresh_tokens c s token x ≡ (err e, x)
  unfolding refresh_tokens
  refused_as_refresh token x e d = continue_err (decode_token c x.clock token s refresh) _ x e d

  authenticated_lem :
      (password : Text) (found : Option User) (u : User)
      → authenticated c s password found ≡ ok u
      → (found ≡ some u) × (verify_password c password u.hashed_password ≡ true)
  unfolding authenticated
  authenticated_lem password none u h = cc
  authenticated_lem password (some v) u h =
      let same : v ≡ u = ground (arith, h) in
      (
        ap some same,
        subst (λ x. verify_password c password x.hashed_password ≡ true) same (ground (arith, h)),
      )

  abbrev pair_of : TokenPair → Result TokenPair → TokenPair
  pair_of pair (ok p) = p
  pair_of pair (err e) = pair

  create_token_pair_lem :
      (u : User) (w : UserTable) (pair : TokenPair)
      → (create_token_pair c s u w).0 ≡ ok pair
      → IsPairOf u w pair
  unfolding create_token_pair draw
  create_token_pair_lem u w pair h = (
    ap (λ r. (pair_of pair r).access_token) (sym h),
    ap (λ r. (pair_of pair r).refresh_token) (sym h),
  )

  login_lem :
      (payload : LoginRequest) (w : UserTable) (pair : TokenPair)
      → (login c s payload w).0 ≡ ok pair
      → (u : User) × ((get_by_username c.lower payload.username w).0 ≡ ok (some u))
        × (verify_password c payload.password u.hashed_password ≡ true)
        × IsPairOf u w pair
  unfolding login get_by_username
  login_lem payload w pair h =
      let (found, read, h1) =
        continue-eq-ok (get_by_username c.lower payload.username w).0 _ w pair h in
      let (u, admitted, h2) =
        continue-eq-ok (authenticated c s payload.password found) _ w pair h1 in
      let (same, verified) = authenticated_lem payload.password found u admitted in
      (u, read ∙ ap ok same, verified, create_token_pair_lem u w pair h2)

  abbrev wrong_type : Exc
  wrong_type = authentication_error "Invalid token type"

  module _ (jwt : IsJwt c s) (uuid : IsUuid c) where
    -- With PyJWT, for the claims that the program makes, and uuid as documented: a login that returns tokens was made with the name and the password of a row. Until it expires,
    -- the access token stands for the row of that id, as it then is, and is refused as a refresh token.
    pub login-get_current_user :
        (payload : LoginRequest) (w x : UserTable) (pair : TokenPair)
        → (login c s payload w).0 ≡ ok pair
        → w.clock ≤ x.clock
        → x.clock < w.clock + s.access_token_expire_minutes * 60
        → (u : User) × ((get_by_username c.lower payload.username w).0 ≡ ok (some u))
          × (verify_password c payload.password u.hashed_password ≡ true)
          × (get_current_user c s pair.access_token x ≡ current_user u.id x)
          × (refresh_tokens c s pair.access_token x ≡ (err wrong_type, x))
    unfolding create_access_token
    login-get_current_user payload w x pair h from until =
        let (u, read, verified, (made, _)) = login_lem payload w pair h in
        let (p, decoded, sub, wrong) =
          create_token-accepted jwt uuid u w.clock w.draws (s.access_token_expire_minutes * 60)
            x.clock access from until in
        (
          u,
          read,
          verified,
          get_current_user_lem pair.access_token x p u.id
              (ap (λ k. decode_token c x.clock k s access) made ∙ decoded) sub,
          refused_as_refresh pair.access_token x wrong_type
              (ap (λ k. decode_token c x.clock k s refresh) made ∙ wrong),
        )

    -- With PyJWT, for the claims that the program makes, and uuid as documented: until it expires, the refresh token of
    -- a login gets new tokens for the row that the login was made with, as it then is, and is refused as an access
    -- token.
    pub login-refresh_tokens :
        (payload : LoginRequest) (w x : UserTable) (pair : TokenPair)
        → (login c s payload w).0 ≡ ok pair
        → w.clock ≤ x.clock
        → x.clock < w.clock + s.refresh_token_expire_minutes * 60
        → (u : User) × ((get_by_username c.lower payload.username w).0 ≡ ok (some u))
          × (refresh_tokens c s pair.refresh_token x ≡ refreshed u.id x)
          × (get_current_user c s pair.refresh_token x ≡ (err wrong_type, x))
    unfolding create_refresh_token
    login-refresh_tokens payload w x pair h from until =
        let (u, read, verified, (_, made)) = login_lem payload w pair h in
        let (p, decoded, sub, wrong) =
          create_token-accepted jwt uuid u w.clock (w.draws + 1)
            (s.refresh_token_expire_minutes * 60) x.clock refresh from until in
        (
          u,
          read,
          refresh_tokens_lem pair.refresh_token x p u.id
              (ap (λ k. decode_token c x.clock k s refresh) made ∙ decoded) sub,
          refused_as_access pair.refresh_token x wrong_type
              (ap (λ k. decode_token c x.clock k s access) made ∙ wrong),
        )
