-- ===== src/Access/Endpoints.antt =====
-- app/api/v1/endpoints/users.py and app/api/v1/endpoints/auth.py: the requests on users, each in a
-- session of its own. The dependencies run before the payload is validated, as FastAPI does it; that of
-- the router, `require_api_permission`, which refuses a request before them, is in Router.
pub mod Payloads
pub mod Guarded
pub mod Reachable
pub mod Owners
use data_api.Prelude.{ℕ, List, [], ◌∷◌}
use data_api.Text.{Text}
use data_api.Access.Accounts.{
  create_user, get_user, update_profile, change_password, update_user, delete_account, delete_user,
}
use data_api.Access.Auth.{login, refresh_tokens, get_current_user, require_roles}
use data_api.Access.Repository.{UserTable, in_session}
use data_api.Access.Schemas.{
  Texts, UserAdminCreate, UserUpdate, UserAdminUpdate, ChangePasswordRequest, LoginRequest,
  TokenPair, validate_user_create, validate_user_update, validate_user_admin_update,
  validate_change_password, validate_refresh, validate_login,
}
use data_api.Access.Security.{Settings, Crypto}
use data_api.Access.Users.{admin, User}
use data_api.Errors.{Result}
use data_api.Session.{◌>>=◌, ◌>>◌, M, pure, lift}

module _ (t : Texts) (c : Crypto) (settings : Settings) where
  -- `Depends(get_current_user)`
  unfoldable pub as_user : {A : Type 0} → Text → (User → M UserTable A) → M UserTable A
  unfolding in_session get_current_user
  as_user token body =
      in_session (do current_user ← get_current_user c settings token; body current_user)

  -- `Depends(require_roles(UserRole.admin))`
  unfoldable pub as_admin : {A : Type 0} → Text → M UserTable A → M UserTable A
  unfolding as_user require_roles
  as_admin token body =
      as_user token (λ current_user. do lift (require_roles (admin ∷ []) current_user); body)

  unfoldable pub post_user : Text → UserAdminCreate → M UserTable User
  unfolding as_admin create_user validate_user_create
  post_user token raw =
      as_admin token
        (do payload ← lift (validate_user_create t raw); create_user c settings payload)

  unfoldable pub patch_me : Text → UserUpdate → M UserTable User
  unfolding as_user update_profile validate_user_update
  patch_me token raw = as_user token (λ current_user. do
    payload ← lift (validate_user_update t raw)
    update_profile c settings current_user payload)

  unfoldable pub delete_me : Text → M UserTable (Unit {0})
  unfolding as_user delete_account
  delete_me token = as_user token delete_account

  unfoldable pub read_user : Text → ℕ → M UserTable User
  unfolding as_admin get_user
  read_user token user_id = as_admin token (get_user user_id)

  unfoldable pub patch_user : Text → ℕ → UserAdminUpdate → M UserTable User
  unfolding as_admin update_user validate_user_admin_update
  patch_user token user_id raw =
      as_admin token (do
        payload ← lift (validate_user_admin_update t raw)
        update_user c settings user_id payload)

  unfoldable pub remove_user : Text → ℕ → M UserTable (Unit {0})
  unfolding as_admin delete_user
  remove_user token user_id = as_admin token (delete_user user_id)

  unfoldable pub get_me : Text → M UserTable User
  unfolding as_user
  get_me token = as_user token (λ current_user. pure current_user)

  unfoldable pub post_login : LoginRequest → M UserTable TokenPair
  unfolding in_session login validate_login
  post_login raw = in_session (do payload ← lift (validate_login t raw); login c settings payload)

  unfoldable pub post_refresh : Text → M UserTable TokenPair
  unfolding in_session refresh_tokens validate_refresh
  post_refresh raw =
      in_session
        (do refresh_token ← lift (validate_refresh raw); refresh_tokens c settings refresh_token)

  unfoldable pub post_change_password : Text → ChangePasswordRequest → M UserTable (Unit {0})
  unfolding as_user change_password validate_change_password
  post_change_password token raw = as_user token (λ current_user. do
    payload ← lift (validate_change_password raw)
    change_password c settings current_user payload)
