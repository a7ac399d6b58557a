-- ===== src/Tests/InitialAdmin.antt =====
-- The script of the first administrator, on a table without one and on one that has its name.
use data_api.Prelude.{none, some, [], ◌∷◌, ◌≡◌, refl, true}
use data_api.Text.{Text, codes, eq_text}
use data_api.Access.InitialAdmin.{initial_admin}
use data_api.Access.InitialAdmin.Again.{initial_admin-initial_admin}
use data_api.Access.InitialAdmin.Creates.{table_of, initial_row, initial_admin-table_of}
use data_api.Access.InitialAdmin.Rows.{has_admin}
use data_api.Access.Repository.{UserTable}
use data_api.Access.Users.{User, UserRole}
use data_api.Errors.{ok}
use data_api.Tests.Users.{lowers, texts, crypto, settings, bob}

abbrev no_admin : UserTable
no_admin = record {
  committed = bob ∷ [];
  session = bob ∷ [];
  others = [];
  next_id = 3;
  draws = 7;
  clock = 100;
}

abbrev password : Text
password = codes "a password of the script"

abbrev made : User
made = record {
  id = 3;
  email = some (codes "admin@example.com");
  username = codes "admin";
  hashed_password = password;
  role = UserRole.admin;
}

-- it makes one
made_admin : (initial_admin texts crypto settings password no_admin).0 ≡ ok (some made)
unfolding initial_admin eq_text data_api.Access.Repository.get_by_email
    data_api.Access.Repository.get_by_username data_api.Text.strip data_api.Text.rstrip_by
    data_api.Text.lstrip_by data_api.Text.is_space data_api.Access.Repository.create
    data_api.Access.Repository.commit data_api.Access.Security.hash_password
made_admin = refl

abbrev promoted : UserTable
promoted = record no_admin {
  committed = record made { role = UserRole.user } ∷ [];
  session = record made { role = UserRole.user } ∷ [];
  next_id = 4;
}

-- it promotes the user of its name
promoted_admin : (initial_admin texts crypto settings password promoted).0 ≡ ok (some made)
unfolding initial_admin eq_text data_api.Access.Repository.get_by_email
    data_api.Access.Repository.get_by_id data_api.Access.Repository.update
    data_api.Access.Repository.commit data_api.Access.Security.hash_password
promoted_admin = refl

initial_admin-initial_admin_example :
    (has_admin (initial_admin texts crypto settings password no_admin).1.committed ≡ true)
    × (initial_admin texts crypto settings
          (codes "other")
          (initial_admin texts crypto settings password no_admin).1
        ≡ (ok none, (initial_admin texts crypto settings password no_admin).1))
initial_admin-initial_admin_example =
    initial_admin-initial_admin texts crypto settings password no_admin (codes "other") (some made)
      refl made_admin

initial_admin-table_of_example :
    initial_admin texts crypto settings password (table_of [] 3 7 100) ≡ (
      ok (some (initial_row texts crypto settings lowers password 3 7)),
      table_of (initial_row texts crypto settings lowers password 3 7 ∷ []) 4 8 100,
    )
initial_admin-table_of_example =
    initial_admin-table_of texts crypto settings lowers password 3 7 100 refl refl
