-- ===== src/Access/Endpoints/Payloads.antt =====
-- The names in the payloads that the validators pass.
use mathlib.Core.Path.{subst}
use data_api.Prelude.{some, arith, ◌≡◌, refl}
use data_api.Access.Names.{LowersAscii, validate_username-IsUsername, validate_change-IsNamedChange}
use data_api.Access.Repository.Keeps.{Holds, IsNamedChange}
use data_api.Access.Repository.Table.{IsUsername}
use data_api.Access.Schemas.{
  Texts, UserAdminCreate, UserUpdate, UserAdminUpdate, validate_username, validate_user_create,
  validate_user_update, validate_user_admin_update, validate_password, validate_email,
  validate_change, optional,
}
use data_api.Errors.{>>=-eq-ok, Result, ok, err}

module _ {A : Type 0} (Q : A → Type 0) where
  pub result-Holds : (r : Result A) → ((a : A) → r ≡ ok a → Q a) → Holds Q r
  result-Holds (ok a) h = h a refl
  result-Holds (err e) h = tt

module _ (t : Texts) (ascii : LowersAscii t.lower) where
  pub create_name :
      (raw p : UserAdminCreate) → validate_user_create t raw ≡ ok p → IsUsername p.username
  unfolding validate_user_create
  create_name raw p e =
      let (email, made_email, e1) = >>=-eq-ok (validate_email t raw.email) _ e in
      let (n, made, e2) = >>=-eq-ok (validate_username t raw.username) _ e1 in
      let (q, made_password, e3) = >>=-eq-ok (validate_password t raw.password) _ e2 in
      let same : n ≡ p.username = ground (arith, e3) in
      subst IsUsername same (validate_username-IsUsername t raw.username n ascii made)

  pub update_name :
      (raw p : UserUpdate) → validate_user_update t raw ≡ ok p → IsNamedChange p.username
  unfolding validate_user_update
  update_name raw p e =
      let (n, made, e1) =
        >>=-eq-ok (validate_change (optional (validate_username t)) raw.username) _ e in
      let same : n ≡ p.username = ground (arith, e1) in
      subst IsNamedChange same (validate_change-IsNamedChange t raw.username n ascii made)

  pub admin_update_name :
      (raw p : UserAdminUpdate) → validate_user_admin_update t raw ≡ ok p → IsNamedChange p.username
  unfolding validate_user_admin_update
  admin_update_name raw p e =
      let (email, made_email, e1) =
        >>=-eq-ok (validate_change (λ x. validate_email t (some x)) raw.email) _ e in
      let (n, made, e2) =
        >>=-eq-ok (validate_change (optional (validate_username t)) raw.username) _ e1 in
      let (q, made_password, e3) =
        >>=-eq-ok (validate_change (optional (validate_password t)) raw.password) _ e2 in
      let same : n ≡ p.username = ground (arith, e3) in
      subst IsNamedChange same (validate_change-IsNamedChange t raw.username n ascii made)
