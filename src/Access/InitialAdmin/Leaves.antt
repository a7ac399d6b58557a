-- ===== src/Access/InitialAdmin/Leaves.antt =====
-- Calls that leave an administrator, if they return.
use data_api.Prelude.{
  if◌then◌else◌, arith, String, Bool, true, false, not, Option, none, some, any, ◌≡◌, refl, ℕ,
}
use data_api.Access.Accounts.{
  ensure_unique_identity, admin_values, given, new_user, hashed_change, or_not_found, hashed,
  update_user, create_user,
}
use data_api.Access.Auth.{committing, settle_conflict}
use data_api.Access.InitialAdmin.Rows.{has_admin, has_admin-snoc, has_admin-replace}
use data_api.Access.Repository.{
  get_by_id, with_role, set, Change, apply_values, UserTable, UserValues, commit, create, update,
  insert_row, write_row, violates, has_id, arrive,
}
use data_api.Access.Schemas.{
  validate_password, optional, validate_username, validate_email, validate_change, UserAdminUpdate,
  UserAdminCreate, validate_user_create, validate_user_admin_update, Texts,
}
use data_api.Access.Security.{Settings, Crypto}
use data_api.Access.Users.{UserRole, User, is_admin, admin}
use data_api.Errors.{>>=-eq-ok, unexpected, Exc, integrity_error, Result, ok, err}
use data_api.Session.{M, continue, pure, lift, ◌>>=◌, ◌>>◌}

-- A call that returns leaves an administrator in what the session sees; and in what is committed.
record Puts {A : Type 0} (m : M UserTable A) : Type 0 where
  puts : (w : UserTable) (a : A) → (m w).0 ≡ ok a → has_admin (m w).1.session ≡ true

pub record Leaves {A : Type 0} (m : M UserTable A) : Type 0 where
  pub leaves : (w : UserTable) (a : A) → (m w).0 ≡ ok a → has_admin (m w).1.committed ≡ true

module _ {A B : Type 0} where
  continue-Leaves :
      (r : Result A) (f : A → M UserTable B) (w : UserTable) (b : B)
      → ((a : A) → Leaves (f a))
      → (continue r f w).0 ≡ ok b
      → has_admin (continue r f w).1.committed ≡ true
  continue-Leaves (ok a) f w b k e = (k a).leaves w b e
  continue-Leaves (err x) f w b k e = cc

  pub bind-Leaves :
      (m : M UserTable A) (f : A → M UserTable B) → ((a : A) → Leaves (f a)) → Leaves (m >>= f)
  bind-Leaves m f k = record { leaves = λ w b e. continue-Leaves (m w).0 f (m w).1 b k e }

  -- what comes after, if it only returns
  continue-pure :
      (r : Result A) (f : A → B) (w : UserTable) (b : B)
      → ((a : A) → r ≡ ok a → has_admin w.committed ≡ true)
      → (continue r (λ a. pure (f a)) w).0 ≡ ok b
      → has_admin (continue r (λ a. pure (f a)) w).1.committed ≡ true
  continue-pure (ok a) f w b k e = k a refl
  continue-pure (err x) f w b k e = cc

  pub then_pure-Leaves : (m : M UserTable A) (f : A → B) → Leaves m → Leaves (m >>= λ a. pure (f a))
  then_pure-Leaves m f k = record {
    leaves = λ w b e. continue-pure (m w).0 f (m w).1 b (k.leaves w) e;
  }

committing-Leaves :
    (message : String) (m : M UserTable User) → Puts m → Leaves (committing message m)
unfolding committing commit
committing-Leaves message m p = record { leaves = λ w u e. settled (m w).0 (m w).1 u (p.puts w) e }
  where
    settled :
        (r : Result User) (w : UserTable) (u : User)
        → ((a : User) → r ≡ ok a → has_admin w.session ≡ true)
        → (let (r', w') = continue r (λ a. commit >> pure a) w in (settle_conflict message r' w').0)
          ≡ ok u
        → has_admin
            (let (r', w') = continue r (λ a. commit >> pure a) w in
              (settle_conflict message r' w').1).committed
          ≡ true
    settled (ok a) w u k e = k a refl
    settled (err integrity_error) w u k e = cc
    settled (err _) w u k e = cc

abbrev IsAdminOrNone : Option User → Type 0
IsAdminOrNone none = Unit
IsAdminOrNone (some u) = is_admin u.role ≡ true

abbrev PutsAt : Result User × UserTable → Type 0
PutsAt x = (a : User) → x.0 ≡ ok a → has_admin x.1.session ≡ true

err-PutsAt : (x : Exc) (w : UserTable) → PutsAt (err x, w)
err-PutsAt x w a e = cc

if-PutsAt :
    (b : Bool) (x y : Result User × UserTable)
    → (b ≡ true → PutsAt x)
    → (b ≡ false → PutsAt y)
    → PutsAt (if b then x else y)
if-PutsAt true x y h k = h refl
if-PutsAt false x y h k = k refl

create-Puts : (u : User) → is_admin u.role ≡ true → Puts (create u)
unfolding create insert_row
create-Puts u h = record {
  puts = λ w.
      if-PutsAt (violates (record u { id = w.next_id }) (arrive w).session) _ _
        (λ v. err-PutsAt integrity_error (arrive w))
        (λ v a e. has_admin-snoc (arrive w).session (record u { id = w.next_id }) h);
}

write_row-PutsAt : (o : Option User) (w : UserTable) → IsAdminOrNone o → PutsAt (write_row o w)
unfolding write_row
write_row-PutsAt none w h = err-PutsAt integrity_error w
write_row-PutsAt (some u) w h =
    if-PutsAt (not (any (has_id u.id) w.session)) _ _ (λ gone. err-PutsAt unexpected w)
      (λ there.
        if-PutsAt (violates u w.session) _ _ (λ v. err-PutsAt integrity_error w)
          (λ v a e. has_admin-replace w.session u h (ground (arith, there))))

with_role-IsAdminOrNone :
    (o : Option User) (change : Change (Option UserRole))
    → change ≡ set (some admin)
    → IsAdminOrNone (with_role change o)
with_role-IsAdminOrNone none change h = tt
with_role-IsAdminOrNone (some u) change h = rw h refl

update-Puts :
    (u : User) (values : UserValues) → values.role ≡ set (some admin) → Puts (update u values)
unfolding update apply_values
update-Puts u values h = record {
  puts = λ w.
      write_row-PutsAt (apply_values u values) (arrive w) (with_role-IsAdminOrNone _ values.role h);
}

module _ {A B : Type 0} where
  pub lift-Leaves :
      (r : Result A) (f : A → M UserTable B)
      → ((a : A) → r ≡ ok a → Leaves (f a))
      → Leaves (lift r >>= f)
  lift-Leaves (ok a) f k = record { leaves = λ w b e. (k a refl).leaves w b e }
  lift-Leaves (err x) f k = record { leaves = λ w b e. cc }

module _ (c : Crypto) (settings : Settings) where
  pub create_user-Leaves :
      (payload : UserAdminCreate)
      → is_admin payload.role ≡ true
      → Leaves (create_user c settings payload)
  unfolding create_user
  create_user-Leaves payload h =
      bind-Leaves (ensure_unique_identity c settings payload.email (some payload.username) none) _
        (λ _. bind-Leaves (hashed c settings payload.password) _ (λ hashed_password.
          committing-Leaves "User already exists" (create (new_user payload hashed_password))
            (create-Puts (new_user payload hashed_password) h)))

  pub update_user-Leaves :
      (user_id : ℕ) (payload : UserAdminUpdate)
      → payload.role ≡ set (some admin)
      → Leaves (update_user c settings user_id payload)
  unfolding update_user
  update_user-Leaves user_id payload h = bind-Leaves (get_by_id user_id) _ (λ found.
      bind-Leaves (lift (or_not_found found)) _ (λ u.
        bind-Leaves
          (ensure_unique_identity c settings (given payload.email) (given payload.username)
            (some u))
          _
          (λ _. bind-Leaves (hashed_change c settings (given payload.password)) _ (λ p.
            committing-Leaves "User conflicts with existing data"
              (update u (admin_values payload p)) (update-Puts u (admin_values payload p) h)))))

module _ (t : Texts) where
  pub create_role :
      (raw p : UserAdminCreate) → validate_user_create t raw ≡ ok p → raw.role ≡ p.role
  unfolding validate_user_create
  create_role raw p e =
      let (email, made_email, e1) = >>=-eq-ok (validate_email t raw.email) _ e in
      let (n, made, e2) = >>=-eq-ok (validate_username t raw.username) _ e1 in
      let (q, made_password, e3) = >>=-eq-ok (validate_password t raw.password) _ e2 in
      ground (arith, e3)

  pub update_role :
      (raw p : UserAdminUpdate) → validate_user_admin_update t raw ≡ ok p → raw.role ≡ p.role
  unfolding validate_user_admin_update
  update_role raw p e =
      let (email, made_email, e1) =
        >>=-eq-ok (validate_change (λ x. validate_email t (some x)) raw.email) _ e in
      let (n, made, e2) =
        >>=-eq-ok (validate_change (optional (validate_username t)) raw.username) _ e1 in
      let (q, made_password, e3) =
        >>=-eq-ok (validate_change (optional (validate_password t)) raw.password) _ e2 in
      ground (arith, e3)
