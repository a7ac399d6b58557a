-- ===== src/Access/Security/Tokens.antt =====
-- What decoding a token that was created gives back.
use data_api.Prelude.{
  if◌then◌else◌, ◌∷◌, ap, ◌∙◌, [], ◌||◌, true, some, false, ◌≡◌, ◌+◌, Bool, All, ℕ, ◌<◌, ◌≤◌, refl,
  arith,
}
use data_api.Text.{eq_text_iff, eq_text_refl, codes, eq_text, Text}
use data_api.Access.Security.{
  TokenType, access, refresh, token_type_value, Settings, Crypto, update_claims, token_payload,
  create_token, check_type, decode_token,
}
use data_api.Dict.{Dict, get, put, get-put}
use data_api.Errors.{err, ok, authentication_error}
use data_api.Value.{Value, str, datetime}

abbrev pub other_type : TokenType → TokenType
other_type access = refresh
other_type refresh = access

abbrev pub is_registered : Text → Bool
is_registered k =
    eq_text k (codes "iat")
    || eq_text k (codes "nbf")
    || eq_text k (codes "exp")
    || eq_text k (codes "sub")
    || eq_text k (codes "jti")
    || eq_text k (codes "typ")

-- A claim that the program makes: text or a time, each under one of the names that it uses for such. None
-- names an audience or an issuer.
abbrev pub is_claim : Text → Value → Bool
is_claim k (str s) =
    eq_text k (codes "sub")
    || eq_text k (codes "jti")
    || eq_text k (codes "typ")
    || eq_text k (codes "role")
    || eq_text k (codes "username")
is_claim k (datetime t) =
    eq_text k (codes "iat") || eq_text k (codes "nbf") || eq_text k (codes "exp")
is_claim k _ = false

abbrev pub AreClaims : Dict Value → Type 0
AreClaims payload = All (λ p. is_claim p.0 p.1 ≡ true) payload

-- What PyJWT documents: with the key of the settings and an algorithm that suits it, a payload of such claims
-- decodes, from the time of its `iat` and `nbf` on and before that of its `exp`, to a payload with its
-- `sub` and `typ`.
pub record IsJwt (c : Crypto) (s : Settings) : Type 0 where
  pub decode_encode :
      (p : Dict Value) (subject typ : Text) (now nbf exp : ℕ)
      → AreClaims p
      → get p (codes "sub") ≡ some (str subject)
      → get p (codes "typ") ≡ some (str typ)
      → get p (codes "iat") ≡ some (datetime nbf)
      → get p (codes "nbf") ≡ some (datetime nbf)
      → get p (codes "exp") ≡ some (datetime exp)
      → nbf ≤ now
      → now < exp
      → (p' : Dict Value) × (c.jwt_decode
            (c.jwt_encode p s.jwt_secret_key s.jwt_algorithm)
            s.jwt_secret_key
            s.jwt_algorithm
            now
          ≡ some p')
        × (get p' (codes "sub") ≡ some (str subject))
        × (get p' (codes "typ") ≡ some (str typ))

-- Claims beside the registered ones.
abbrev pub AreExtra : Dict Value → Type 0
AreExtra claims = All (λ p. is_registered p.0 ≡ false) claims

get-update_claims :
    (c : Crypto) (payload claims : Dict Value) (k : Text)
    → is_registered k ≡ true
    → AreExtra claims
    → get (update_claims c payload claims) k ≡ get payload k
unfolding update_claims
get-update_claims c payload [] k r h = refl
get-update_claims c payload ((j, v) ∷ claims) k r (h, hs) =
    get-update_claims c (put payload j v) claims k r hs
    ∙ get-put payload j k v
    ∙ ap (λ b. if b then some v else get payload k) (different (eq_text j k) refl)
  where
    different : (b : Bool) → eq_text j k ≡ b → eq_text j k ≡ false
    different false e = e
    different true e = absurd (ground (arith, eq_text_iff j k, e, h, r))

module _ (c : Crypto) (s : Settings) (jwt : IsJwt c s) where
  payload_claim :
      (now draw delta : ℕ) (subject : Text) (t : TokenType) (extra : Dict Value) (k : Text)
      → is_registered k ≡ true
      → AreExtra extra
      → get (token_payload c now draw subject t delta extra) k
        ≡ get (token_payload c now draw subject t delta []) k
  unfolding token_payload update_claims
  payload_claim now draw delta subject t extra k r h = get-update_claims c _ extra k r h

  decoded :
      (now later draw delta : ℕ) (subject : Text) (t : TokenType) (extra : Dict Value)
      → AreExtra extra
      → AreClaims (token_payload c now draw subject t delta extra)
      → now ≤ later
      → later < now + delta
      → (p : Dict Value) × (c.jwt_decode
            (create_token c now draw subject s t delta extra)
            s.jwt_secret_key
            s.jwt_algorithm
            later
          ≡ some p)
        × (get p (codes "sub") ≡ some (str subject))
        × (get p (codes "typ") ≡ some (str (token_type_value t)))
  unfolding create_token token_payload update_claims get eq_text
  decoded now later draw delta subject t extra h claims from until =
      jwt.decode_encode (token_payload c now draw subject t delta extra) subject
        (token_type_value t) later now (now + delta) claims
        (payload_claim now draw delta subject t extra (codes "sub") refl h)
        (payload_claim now draw delta subject t extra (codes "typ") refl h)
        (payload_claim now draw delta subject t extra (codes "iat") refl h)
        (payload_claim now draw delta subject t extra (codes "nbf") refl h)
        (payload_claim now draw delta subject t extra (codes "exp") refl h) from until

  type_of_other :
      (t : TokenType) → eq_text (token_type_value t) (token_type_value (other_type t)) ≡ false
  unfolding eq_text
  type_of_other access = refl
  type_of_other refresh = refl

  -- While it lasts, a token that was created with plain claims beside the registered ones is accepted as a
  -- token of its type, with its subject, and refused as a token of the other type.
  pub decode_token-create_token :
      (now later draw delta : ℕ) (subject : Text) (t : TokenType) (extra : Dict Value)
      → AreExtra extra
      → AreClaims (token_payload c now draw subject t delta extra)
      → now ≤ later
      → later < now + delta
      → (p : Dict Value) × (decode_token c later
            (create_token c now draw subject s t delta extra)
            s
            t
          ≡ ok p)
        × (get p (codes "sub") ≡ some (str subject))
        × (decode_token c later (create_token c now draw subject s t delta extra) s (other_type t)
            ≡ err (authentication_error "Invalid token type"))
  unfolding decode_token
  decode_token-create_token now later draw delta subject t extra h claims from until =
      let (p, e, sub, typ) = decoded now later draw delta subject t extra h claims from until in
      (
        p,
        ap (check_type c t) e ∙ rw typ (rw (eq_text_refl (token_type_value t)) refl),
        sub,
        ap (check_type c (other_type t)) e ∙ rw typ (rw (type_of_other t) refl),
      )
