-- ===== src/Access/Users.antt =====
-- app/models/user.py. A UUID is a number.
use data_api.Prelude.{false, true, Bool, ℕ, Option}
use data_api.Text.{Text}

pub data UserRole : Type 0 where
  user admin : UserRole

pub record User : Type 0 where
  pub id : ℕ
  pub email : Option Text
  pub username : Text
  pub hashed_password : Text
  pub role : UserRole

abbrev pub is_admin : UserRole → Bool
is_admin admin = true
is_admin user = false
