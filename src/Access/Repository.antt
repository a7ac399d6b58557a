-- ===== src/Access/Repository.antt =====
-- app/repositories/sqlalchemy/user.py over the table of app/models/user.py, with the unit of work and
-- the session's scope of app/infrastructure/database/session.py.
pub mod Table
pub mod Keeps
use data_api.Prelude.{
  ◌+◌, ◌&&◌, map, ◌∷◌, ◌||◌, ◌==◌, not, none, ℕ, some, keep, false, any, [], ◌++◌, if◌then◌else◌,
  Option, List, Bool,
}
use data_api.Text.{eq_text, Text}
use data_api.Access.Users.{UserRole, User}
use data_api.Errors.{err, ok, integrity_error, unexpected}
use data_api.Session.{scalar_one_or_none}
pub use data_api.Session.{M, continue, ◌>>=◌, ◌>>◌, pure, lift, raise_if}

-- The rows that are committed, those that the session sees, and those that other transactions commit
-- between the session's reads and its next write; the next id; what the random generator is at; the
-- time in seconds.
pub record UserTable : Type 0 where
  pub committed : List User
  pub session : List User
  pub others : List User
  pub next_id : ℕ
  pub draws : ℕ
  pub clock : ℕ

-- A value of the dict that `update` is given: absent, or set, to None where the column takes it.
pub data Change (A : Type 0) : Type 0 where
  unset : Change A
  set : A → Change A

pub record UserValues : Type 0 where
  pub email : Change (Option Text)
  pub username : Change (Option Text)
  pub hashed_password : Change Text
  pub role : Change (Option UserRole)

abbrev pub is_email : Text → Option Text → Bool
is_email email none = false
is_email email (some e) = eq_text e email

-- The unique indexes: both have the name, or both have the email, where a NULL is like no other.
abbrev pub same_email : Option Text → Option Text → Bool
same_email none o = false
same_email (some e) o = is_email e o

abbrev pub same_key : User → User → Bool
same_key r s = eq_text r.username s.username || same_email r.email s.email

unfoldable pub violates : User → List User → Bool
violates r rows = any (λ s. not (s.id == r.id) && same_key s r) rows

abbrev pub has_id : ℕ → User → Bool
has_id user_id u = u.id == user_id

-- The rows of the other transactions can be seen from now on.
abbrev pub arrive : UserTable → UserTable
arrive w = record w {
  committed = w.committed ++ w.others;
  session = w.session ++ w.others;
  others = [];
}

unfoldable pub get_by_id : ℕ → M UserTable (Option User)
unfolding scalar_one_or_none
get_by_id user_id w = (scalar_one_or_none (keep (has_id user_id) w.session), w)

unfoldable pub get_by_email : (Text → Text) → Text → M UserTable (Option User)
unfolding scalar_one_or_none
get_by_email lower email w =
    (scalar_one_or_none (keep (λ u. is_email (lower email) u.email) w.session), w)

unfoldable pub get_by_username : (Text → Text) → Text → M UserTable (Option User)
unfolding scalar_one_or_none
get_by_username lower username w =
    (scalar_one_or_none (keep (λ u. eq_text u.username (lower username)) w.session), w)

unfoldable pub insert_row : User → M UserTable User
unfolding violates
insert_row user w =
    let row : User = record user { id = w.next_id } in
    if violates row w.session
    then (err integrity_error, w)
    else (ok row, record w { session = w.session ++ row ∷ []; next_id = w.next_id + 1 })

-- `add`, `flush`, `refresh`
unfoldable pub create : User → M UserTable User
unfolding insert_row
create user w = insert_row user (arrive w)

abbrev pub with_email : Change (Option Text) → User → User
with_email unset u = u
with_email (set e) u = record u { email = e }

abbrev pub with_password : Change Text → User → User
with_password unset u = u
with_password (set p) u = record u { hashed_password = p }

-- NULL in a column that takes none is `none`.
abbrev pub with_username : Change (Option Text) → User → Option User
with_username unset u = some u
with_username (set none) u = none
with_username (set (some n)) u = some (record u { username = n })

abbrev pub with_role : Change (Option UserRole) → Option User → Option User
with_role change none = none
with_role unset (some u) = some u
with_role (set none) (some u) = none
with_role (set (some r)) (some u) = some (record u { role = r })

-- the loop of `setattr`
unfoldable pub apply_values : User → UserValues → Option User
apply_values user values = with_role values.role (
    with_username values.username
      (with_password values.hashed_password (with_email values.email user)))

abbrev pub replace : User → User → User
replace user r = if has_id user.id r then user else r

-- The flush of a changed row: a row that is gone is a StaleDataError, a NULL in a column that takes
-- none an IntegrityError.
unfoldable pub write_row : Option User → M UserTable User
unfolding violates
write_row none w = (err integrity_error, w)
write_row (some user) w =
    if not (any (has_id user.id) w.session)
    then (err unexpected, w)
    else if violates user w.session
    then (err integrity_error, w)
    else (ok user, record w { session = map (replace user) w.session })

unfoldable pub update : User → UserValues → M UserTable User
unfolding apply_values write_row
update user values w = write_row (apply_values user values) (arrive w)

unfoldable pub delete : User → M UserTable (Unit {0})
delete user w =
    let w' = arrive w in
    (ok tt, record w' { session = keep (λ r. not (has_id user.id r)) w'.session })

unfoldable pub commit : M UserTable (Unit {0})
commit w = (ok tt, record w { committed = w.session })

unfoldable pub rollback : UserTable → UserTable
rollback w = record w { session = w.committed }

-- `get_session` around a request: an exception rolls back, and closing drops what is not committed.
unfoldable pub in_session : {A : Type 0} → M UserTable A → M UserTable A
unfolding rollback
in_session body w = let (r, w') = body w in (r, rollback w')
