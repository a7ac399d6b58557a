-- ===== src/Access/InitialAdmin/Creates.antt =====
-- What the script does on an empty table.
use data_api.Prelude.{arith, All, all, ltb, ◌<◌, true, some, List, [], ◌∷◌, ◌≡◌, refl, ℕ, ◌+◌}
use data_api.Text.{Text, codes, eq_text}
use data_api.Access.InitialAdmin.{initial_admin, default_admin_email, default_admin_username}
use data_api.Access.Names.{LowersAscii}
use data_api.Access.Repository.{UserTable}
use data_api.Access.Schemas.{Texts}
use data_api.Access.Security.{Settings, Crypto, hash_password}
use data_api.Access.Users.{User, admin}
use data_api.Dynamic.Request.{has_length}
use data_api.Errors.{ok}

abbrev pub table_of : List User → ℕ → ℕ → ℕ → UserTable
table_of rows next_id draws clock = record {
  committed = rows;
  session = rows;
  others = [];
  next_id = next_id;
  draws = draws;
  clock = clock;
}

All-ascii : (s : Text) → all (λ c. ltb c 128) s ≡ true → All (λ c. c < 128) s
All-ascii [] h = tt
All-ascii (c ∷ s) h = (ground (arith, h), All-ascii s (ground (arith, h)))

module _ (t : Texts) (c : Crypto) (settings : Settings) (ascii : LowersAscii t.lower) where
  -- the row that the script makes
  abbrev pub initial_row : Text → ℕ → ℕ → User
  initial_row password next_id draws = record {
    id = next_id;
    email = some default_admin_email;
    username = default_admin_username;
    hashed_password = hash_password c draws password settings.password_bcrypt_rounds;
    role = admin;
  }

  -- On an empty table, the script makes and commits the administrator of the default name and email, with the hash
  -- of the password, if EmailStr takes the email as it is and the password has 12 to 128 characters. `lower` maps
  -- ASCII text as `str.lower` does.
  pub initial_admin-table_of :
      (password : Text) (next_id draws clock : ℕ)
      → t.email_str default_admin_email ≡ some default_admin_email
      → has_length 12 128 password ≡ true
      → initial_admin t c settings password (table_of [] next_id draws clock) ≡ (
        ok (some (initial_row password next_id draws)),
        table_of (initial_row password next_id draws ∷ []) (next_id + 1) (draws + 1) clock,
      )
  unfolding initial_admin eq_text data_api.Access.Repository.get_by_email
      data_api.Access.Repository.get_by_username data_api.Text.strip data_api.Text.rstrip_by
      data_api.Text.lstrip_by data_api.Text.is_space data_api.Access.Repository.create
      data_api.Access.Repository.commit data_api.Access.Security.hash_password
  initial_admin-table_of password next_id draws clock email fits =
      rw
        (
          email,
          fits,
          ascii.lowers default_admin_email (All-ascii default_admin_email refl),
          ascii.lowers default_admin_username (All-ascii default_admin_username refl),
        )
        refl
