-- ===== src/Access/Endpoints/Guarded.antt =====
-- Who the requests on users are open to.
use mathlib.Core.Path.{subst}
use data_api.Prelude.{sym, ℕ, [], ◌∷◌, ◌≡◌, refl, ap}
use data_api.Text.{Text}
use data_api.Access.Auth.{get_current_user, require_roles}
use data_api.Access.Endpoints.{as_admin, post_user, read_user, patch_user, remove_user}
use data_api.Access.Repository.{get_by_id, UserTable, rollback}
use data_api.Access.Schemas.{Texts, UserAdminCreate, UserAdminUpdate}
use data_api.Access.Security.{subject_id, access, decode_token, Settings, Crypto}
use data_api.Access.Users.{user, admin, User}
use data_api.Errors.{Exc, authorization_error, Result, ok, err}
use data_api.Session.{◌>>◌, lift, continue, M}

continue_same :
    {S A B : Type 0} (r : Result A) (f : A → M S B) (w : S)
    → ((a : A) → (f a w).1 ≡ w)
    → (continue r f w).1 ≡ w
continue_same (ok a) f w h = h a
continue_same (err e) f w h = refl

-- The bearer of the token is no admin: the token is refused, or it is that of a user.
abbrev pub IsNoAdmin : Result User → Type 0
IsNoAdmin (ok u) = u.role ≡ user
IsNoAdmin (err e) = Unit

abbrev refusal : Result User → Exc
refusal (ok u) = authorization_error "Not enough permissions"
refusal (err e) = e

-- What a refused request comes to.
abbrev pub Refused : {A : Type 0} → UserTable → Result A × UserTable → Type 0
Refused w (ok a, w') = ⊥
Refused w (err e, w') = w'.committed ≡ w.committed

module _ (t : Texts) (c : Crypto) (settings : Settings) where
  not_admitted :
      {A : Type 0} (body : M UserTable A) (r : Result User) (w : UserTable)
      → IsNoAdmin r
      → continue r (λ u. lift (require_roles (admin ∷ []) u) >> body) w ≡ (err (refusal r), w)
  unfolding require_roles
  not_admitted body (ok u) w h = rw h refl
  not_admitted body (err e) w h = refl

  as_admin_refused :
      {A : Type 0} (token : Text) (body : M UserTable A) (w : UserTable)
      → IsNoAdmin (get_current_user c settings token w).0
      → as_admin t c settings token body w ≡ (
        err (refusal (get_current_user c settings token w).0),
        rollback (get_current_user c settings token w).1,
      )
  unfolding as_admin
  as_admin_refused token body w h =
      ap (λ p. (p.0, rollback p.1))
        (not_admitted body (get_current_user c settings token w).0
          (get_current_user c settings token w).1 h)

  get_current_user-Reads :
      (token : Text) (w : UserTable) → (get_current_user c settings token w).1 ≡ w
  unfolding get_current_user get_by_id
  get_current_user-Reads token w =
      continue_same (decode_token c w.clock token settings access) _ w (λ payload.
        continue_same (subject_id c payload) _ w
          (λ user_id. continue_same (get_by_id user_id w).0 _ w (λ found. refl)))

  as_admin-Refused :
      {A : Type 0} (token : Text) (body : M UserTable A) (w : UserTable)
      → IsNoAdmin (get_current_user c settings token w).0
      → Refused w (as_admin t c settings token body w)
  unfolding rollback
  as_admin-Refused token body w h =
      subst (Refused w) (sym (as_admin_refused token body w h))
        (ap (λ v. v.committed) (get_current_user-Reads token w))

  -- With a token that is refused, or that is a plain user's, the requests that create, read, change or
  -- delete a user raise, and leave the committed table as it was.
  pub admin_requests-Refused :
      (token : Text) (user_id : ℕ) (payload : UserAdminCreate) (changes : UserAdminUpdate)
      (w : UserTable)
      → IsNoAdmin (get_current_user c settings token w).0
      → Refused w (post_user t c settings token payload w)
        × Refused w (read_user t c settings token user_id w)
        × Refused w (patch_user t c settings token user_id changes w)
        × Refused w (remove_user t c settings token user_id w)
  unfolding post_user read_user patch_user remove_user
  admin_requests-Refused token user_id payload changes w h = (
    as_admin-Refused token _ w h,
    as_admin-Refused token _ w h,
    as_admin-Refused token _ w h,
    as_admin-Refused token _ w h,
  )
