-- ===== src/Access/Accounts/Keeps.antt =====
-- The services on users keep the table good.
use data_api.Prelude.{false, true, none, if◌then◌else◌, ℕ, some, String, Option, Bool}
use data_api.Text.{Text}
use data_api.Access.Accounts.{
  no_values, new_user, admin_values, is_taken, is_new_email, is_new_username, same_text, given,
  or_not_found, ensure_unique_email, ensure_unique_username, ensure_unique_identity, hashed,
  create_user, get_user, ensure_free_username, update_profile, change_password, hashed_change,
  update_user, delete_account, delete_user,
}
use data_api.Access.Auth.{settle_conflict, committing, or_unauthenticated, get_current_user}
use data_api.Access.Repository.{UserTable, Change, unset, set, commit, create, update}
use data_api.Access.Repository.Keeps.{
  IsGood, Holds, Keeps, AnyValue, IsNamed, IsSomeNamed, IsNamedChange, bind-Keeps, lift-Keeps,
  pure-Keeps, raise_if-Keeps, get_by_id-Keeps, get_by_email-Keeps, get_by_username-Keeps,
  create-Keeps, update-Keeps, delete-Keeps, commit-Keeps, rollback-IsGood,
}
use data_api.Access.Repository.Table.{IsUsername}
use data_api.Access.Schemas.{UserAdminCreate, UserUpdate, UserAdminUpdate, ChangePasswordRequest}
use data_api.Access.Security.{Settings, Crypto, decode_token, subject_id, access}
use data_api.Access.Users.{User}
use data_api.Errors.{Result, ok, err, integrity_error}
use data_api.Session.{◌>>◌, pure, lift, M}

settle_conflict-IsGood :
    (message : String) (r : Result User) (w : UserTable)
    → IsGood w
    → Holds IsNamed r
    → IsGood (settle_conflict message r w).1 × Holds IsNamed (settle_conflict message r w).0
settle_conflict-IsGood message (ok u) w g h = (g, h)
settle_conflict-IsGood message (err integrity_error) w g h = (rollback-IsGood w g, tt)
settle_conflict-IsGood message (err _) w g h = (g, tt)

committing-Keeps :
    (message : String) (m : M UserTable User)
    → Keeps IsNamed m
    → Keeps IsNamed (committing message m)
unfolding committing
committing-Keeps message m k = record {
  keeps = λ w g.
      let (g', q) =
        (bind-Keeps IsNamed IsNamed m (λ u. commit >> pure u) k
            (λ u name.
              bind-Keeps AnyValue IsNamed commit (λ _. pure u) commit-Keeps
                (λ _ _. pure-Keeps IsNamed u name))).keeps
          w g in
      settle_conflict-IsGood message _ _ g' q;
}

if-Keeps :
    {A : Type 0} (Q : A → Type 0) (b : Bool) (m n : M UserTable A)
    → Keeps Q m
    → Keeps Q n
    → Keeps Q (if b then m else n)
if-Keeps Q true m n h k = h
if-Keeps Q false m n h k = k

or_not_found-IsNamed : (o : Option User) → IsSomeNamed o → Holds IsNamed (or_not_found o)
or_not_found-IsNamed none h = tt
or_not_found-IsNamed (some u) h = h

pub AnyValue-Holds : {A : Type 0} (r : Result A) → Holds AnyValue r
AnyValue-Holds (ok a) = tt
AnyValue-Holds (err e) = tt

module _ (c : Crypto) (settings : Settings) where
  ensure_unique_email-Keeps :
      (email : Option Text) (current : Option User)
      → Keeps AnyValue (ensure_unique_email c settings email current)
  unfolding ensure_unique_email
  ensure_unique_email-Keeps none current = pure-Keeps AnyValue tt tt
  ensure_unique_email-Keeps (some email) current =
      if-Keeps AnyValue (is_new_email email current) _ _
        (bind-Keeps IsSomeNamed AnyValue _ _ (get_by_email-Keeps c.lower email)
          (λ existing _. raise_if-Keeps (is_taken existing current) _))
        (pure-Keeps AnyValue tt tt)

  ensure_unique_username-Keeps :
      (username : Option Text) (current : Option User)
      → Keeps AnyValue (ensure_unique_username c settings username current)
  unfolding ensure_unique_username
  ensure_unique_username-Keeps none current = pure-Keeps AnyValue tt tt
  ensure_unique_username-Keeps (some username) current =
      if-Keeps AnyValue (is_new_username username current) _ _
        (bind-Keeps IsSomeNamed AnyValue _ _ (get_by_username-Keeps c.lower username)
          (λ existing _. raise_if-Keeps (is_taken existing current) _))
        (pure-Keeps AnyValue tt tt)

  ensure_unique_identity-Keeps :
      (email username : Option Text) (current : Option User)
      → Keeps AnyValue (ensure_unique_identity c settings email username current)
  unfolding ensure_unique_identity
  ensure_unique_identity-Keeps email username current =
      bind-Keeps AnyValue AnyValue _ _ (ensure_unique_email-Keeps email current)
        (λ _ _. ensure_unique_username-Keeps username current)

  hashed-Keeps : (password : Text) → Keeps AnyValue (hashed c settings password)
  unfolding hashed
  hashed-Keeps password = record { keeps = λ w g. (g, tt) }

  hashed_change-Keeps :
      (password : Option Text) → Keeps AnyValue (hashed_change c settings password)
  unfolding hashed_change
  hashed_change-Keeps none = record { keeps = λ w g. (g, tt) }
  hashed_change-Keeps (some password) = record { keeps = λ w g. (g, tt) }

  pub create_user-Keeps :
      (payload : UserAdminCreate)
      → IsUsername payload.username
      → Keeps IsNamed (create_user c settings payload)
  unfolding create_user
  create_user-Keeps payload name =
      bind-Keeps AnyValue IsNamed _ _
        (ensure_unique_identity-Keeps payload.email (some payload.username) none)
        (λ _ _.
          bind-Keeps AnyValue IsNamed (hashed c settings payload.password) _
            (hashed-Keeps payload.password)
            (λ h _.
              committing-Keeps "User already exists" (create (new_user payload h))
                (create-Keeps (new_user payload h) name)))

  ensure_free_username-Keeps :
      (username : Change (Option Text)) (current : User)
      → Keeps AnyValue (ensure_free_username c settings username current)
  unfolding ensure_free_username
  ensure_free_username-Keeps unset current = pure-Keeps AnyValue tt tt
  ensure_free_username-Keeps (set username) current =
      if-Keeps AnyValue (same_text username current.username) _ _ (pure-Keeps AnyValue tt tt) (
        bind-Keeps IsSomeNamed AnyValue _ _ (get_by_username-Keeps c.lower _)
          (λ existing _. raise_if-Keeps (is_taken existing (some current)) _))

  pub update_profile-Keeps :
      (current : User) (payload : UserUpdate)
      → IsNamed current
      → IsNamedChange payload.username
      → Keeps IsNamed (update_profile c settings current payload)
  unfolding update_profile
  update_profile-Keeps current payload name change =
      bind-Keeps AnyValue IsNamed _ _ (ensure_free_username-Keeps payload.username current) (λ _ _.
        committing-Keeps "User profile conflicts with existing data"
          (update current (record no_values { username = payload.username }))
          (update-Keeps current (record no_values { username = payload.username }) name change))

  pub change_password-Keeps :
      (current : User) (payload : ChangePasswordRequest)
      → IsNamed current
      → Keeps AnyValue (change_password c settings current payload)
  unfolding change_password
  change_password-Keeps current payload name =
      bind-Keeps AnyValue AnyValue _ _ (raise_if-Keeps _ _) (λ _ _.
        bind-Keeps AnyValue AnyValue (hashed c settings payload.new_password) _
          (hashed-Keeps payload.new_password)
          (λ h _.
            bind-Keeps IsNamed AnyValue
              (update current (record no_values { hashed_password = set h })) _
              (update-Keeps current (record no_values { hashed_password = set h }) name tt)
              (λ _ _. commit-Keeps)))

  pub update_user-Keeps :
      (user_id : ℕ) (payload : UserAdminUpdate)
      → IsNamedChange payload.username
      → Keeps IsNamed (update_user c settings user_id payload)
  unfolding update_user
  update_user-Keeps user_id payload change =
      bind-Keeps IsSomeNamed IsNamed _ _ (get_by_id-Keeps user_id) (λ found h.
        bind-Keeps IsNamed IsNamed _ _
          (lift-Keeps IsNamed (or_not_found found) (or_not_found-IsNamed found h))
          (λ u name.
            bind-Keeps AnyValue IsNamed _ _
              (ensure_unique_identity-Keeps (given payload.email) (given payload.username) (some u))
              (λ _ _.
                bind-Keeps AnyValue IsNamed (hashed_change c settings (given payload.password)) _
                  (hashed_change-Keeps (given payload.password))
                  (λ p _.
                    committing-Keeps "User conflicts with existing data"
                      (update u (admin_values payload p))
                      (update-Keeps u (admin_values payload p) name change)))))

  or_unauthenticated-IsNamed :
      (message : String) (o : Option User)
      → IsSomeNamed o
      → Holds IsNamed (or_unauthenticated message o)
  or_unauthenticated-IsNamed message none h = tt
  or_unauthenticated-IsNamed message (some u) h = h

  pub get_current_user-Keeps : (token : Text) → Keeps IsNamed (get_current_user c settings token)
  unfolding get_current_user
  get_current_user-Keeps token = record {
    keeps = λ w g.
        (bind-Keeps AnyValue IsNamed (lift (decode_token c w.clock token settings access)) _
            (lift-Keeps AnyValue _ (AnyValue-Holds _))
            (λ payload _.
              bind-Keeps AnyValue IsNamed _ _
                (lift-Keeps AnyValue (subject_id c payload) (AnyValue-Holds _))
                (λ user_id _.
                  bind-Keeps IsSomeNamed IsNamed _ _ (get_by_id-Keeps user_id) (λ found h.
                    lift-Keeps IsNamed _ (or_unauthenticated-IsNamed _ found h))))).keeps
          w g;
  }

pub get_user-Keeps : (user_id : ℕ) → Keeps IsNamed (get_user user_id)
unfolding get_user
get_user-Keeps user_id =
    bind-Keeps IsSomeNamed IsNamed _ _ (get_by_id-Keeps user_id)
      (λ found h. lift-Keeps IsNamed (or_not_found found) (or_not_found-IsNamed found h))

pub delete_account-Keeps : (u : User) → Keeps AnyValue (delete_account u)
unfolding delete_account
delete_account-Keeps u = bind-Keeps AnyValue AnyValue _ _ (delete-Keeps u) (λ _ _. commit-Keeps)

pub delete_user-Keeps : (user_id : ℕ) → Keeps AnyValue (delete_user user_id)
unfolding delete_user
delete_user-Keeps user_id =
    bind-Keeps IsSomeNamed AnyValue _ _ (get_by_id-Keeps user_id) (λ found h.
      bind-Keeps IsNamed AnyValue _ _
        (lift-Keeps IsNamed (or_not_found found) (or_not_found-IsNamed found h))
        (λ u _. bind-Keeps AnyValue AnyValue _ _ (delete-Keeps u) (λ _ _. commit-Keeps)))
