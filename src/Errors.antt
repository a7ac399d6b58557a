-- ===== src/Errors.antt =====
-- app/core/exceptions.py: the exceptions of the program, and computations that may raise.
use data_api.Prelude.{ℕ, ◌≡◌, refl, String, Bool, true, false, List, [], ◌∷◌}
use data_api.Text.{Text}

-- A piece of an f-string: literal text, or the text of a variable.
pub data Piece : Type 0 where
  lit : String → Piece
  var : Text → Piece

-- A value of an error's `details`.
pub data Detail : Type 0 where
  one : Text → Detail
  many : List Text → Detail

pub record AppError : Type 0 where
  pub status_code : ℕ
  pub code : String
  pub message : List Piece
  pub details : List (String × Detail)

-- Exceptions that are not `AppError` keep their Python class.
pub data Exc : Type 0 where
  app_error : AppError → Exc
  value_error type_error overflow_error key_error runtime_error : Exc
  integrity_error validation_error unexpected : Exc

-- What a call comes to: an exception, or its value.
pub data Result {ℓ} (A : Type ℓ) : Type ℓ where
  err : Exc → Result A
  ok : A → Result A

module _ {ℓ κ} {A : Type ℓ} {B : Type κ} where
  infixl 5 ◌>>=◌
  abbrev pub ◌>>=◌ : Result A → (A → Result B) → Result B
  err raised >>= rest = err raised
  ok value >>= rest = rest value

  -- Where all of it returned, its first part did, and so did the rest.
  pub >>=-eq-ok :
      (first : Result A) (rest : A → Result B) {result : B}
      → (first >>= rest) ≡ ok result
      → (value : A) × (first ≡ ok value) × (rest value ≡ ok result)
  >>=-eq-ok (err raised) rest e = cc
  >>=-eq-ok (ok value) rest e = (value, refl, e)

module _ {ℓ} {B : Type ℓ} where
  infixl 5 ◌>>◌
  abbrev pub ◌>>◌ : Result (Unit {0}) → Result B → Result B
  first >> rest = first >>= λ done. rest

-- `if bad: raise e`
abbrev pub raise_if : Bool → Exc → Result (Unit {0})
raise_if false raised = ok tt
raise_if true raised = err raised

abbrev pub conflict_error : String → String → Exc
conflict_error message code =
    app_error (record { status_code = 409; code = code; message = lit message ∷ []; details = [] })

abbrev pub authentication_error : String → Exc
authentication_error message = app_error (record {
  status_code = 401;
  code = "authentication_failed";
  message = lit message ∷ [];
  details = [];
})

abbrev pub authorization_error : String → Exc
authorization_error message = app_error (record {
  status_code = 403;
  code = "not_enough_permissions";
  message = lit message ∷ [];
  details = [];
})

abbrev pub not_found_error : String → Exc
not_found_error resource = app_error (record {
  status_code = 404;
  code = "not_found";
  message = lit resource ∷ lit " not found" ∷ [];
  details = [];
})
