-- ===== src/Access/Endpoints/Reachable.antt =====
-- The table of users through any sequence of requests, of runs of the script and of writes by others.
use mathlib.Core.List.{append_assoc, map-append}
use mathlib.Core.Path.{subst}
use data_api.Prelude.{
  List, Bool, Bool-cases, inl, inr, map, keep, ap, [], ◌∷◌, false, ℕ, ◌+◌, ◌≡◌, ◌++◌, refl, sym,
}
use data_api.Text.{Text}
use data_api.Access.Accounts.Keeps.{
  AnyValue-Holds, create_user-Keeps, update_profile-Keeps, change_password-Keeps, update_user-Keeps,
  get_current_user-Keeps, get_user-Keeps, delete_account-Keeps, delete_user-Keeps,
}
use data_api.Access.Auth.{
  get_current_user, require_roles, create_token_pair, authenticated, or_unauthenticated, login,
  refresh_tokens,
}
use data_api.Access.Endpoints.{
  as_user, as_admin, post_user, patch_me, delete_me, read_user, patch_user, remove_user, get_me,
  post_login, post_refresh, post_change_password,
}
use data_api.Access.Endpoints.Payloads.{result-Holds, create_name, update_name, admin_update_name}
use data_api.Access.InitialAdmin.{initial_admin}
use data_api.Access.InitialAdmin.Keeps.{create_initial_admin-Keeps}
use data_api.Access.Names.{LowersAscii}
use data_api.Access.Repository.{UserTable, violates, replace, in_session}
use data_api.Access.Repository.Keeps.{
  IsGood, Keeps, AnyValue, IsNamed, IsSomeNamed, IsNamedChange, bind-Keeps, lift-Keeps, pure-Keeps,
  get_by_username-Keeps, get_by_id-Keeps, in_session-Keeps,
}
use data_api.Access.Repository.Table.{
  IsUsername, IsTable, snoc-IsTable, replace-IsTable, keep-IsTable,
}
use data_api.Access.Schemas.{
  validate_change_password, validate_refresh, Texts, UserAdminCreate, UserUpdate, UserAdminUpdate,
  ChangePasswordRequest, LoginRequest, validate_user_create, validate_user_update,
  validate_user_admin_update, validate_login,
}
use data_api.Access.Security.{Settings, Crypto, decode_token, subject_id, refresh}
use data_api.Access.Users.{User, admin}
use data_api.Session.{lift, M}

module _ (t : Texts) (c : Crypto) (settings : Settings) where
  -- A request, with any token and payload; a run of the script that makes the first administrator; time that
  -- passes; and what other processes commit, which are other instances of the service and the scripts that
  -- change users through it or delete them: a new row, another version of a row, or rows that are gone. The
  -- database takes a row that violates no index. A name that these processes write has passed the schemas of
  -- requests; scripts/create_power_bi_user.sh, which writes a name that nothing validates, is none of them.
  pub data Step : UserTable → UserTable → Type 0 where
    post_user_step :
        (w : UserTable) (token : Text) (raw : UserAdminCreate)
        → Step w (post_user t c settings token raw w).1
    patch_me_step :
        (w : UserTable) (token : Text) (raw : UserUpdate)
        → Step w (patch_me t c settings token raw w).1
    delete_me_step : (w : UserTable) (token : Text) → Step w (delete_me t c settings token w).1
    read_user_step :
        (w : UserTable) (token : Text) (user_id : ℕ)
        → Step w (read_user t c settings token user_id w).1
    patch_user_step :
        (w : UserTable) (token : Text) (user_id : ℕ) (raw : UserAdminUpdate)
        → Step w (patch_user t c settings token user_id raw w).1
    remove_user_step :
        (w : UserTable) (token : Text) (user_id : ℕ)
        → Step w (remove_user t c settings token user_id w).1
    get_me_step : (w : UserTable) (token : Text) → Step w (get_me t c settings token w).1
    login_step : (w : UserTable) (raw : LoginRequest) → Step w (post_login t c settings raw w).1
    refresh_step : (w : UserTable) (token : Text) → Step w (post_refresh t c settings token w).1
    change_password_step :
        (w : UserTable) (token : Text) (raw : ChangePasswordRequest)
        → Step w (post_change_password t c settings token raw w).1
    initial_admin_step :
        (w : UserTable) (password : Text) → Step w (initial_admin t c settings password w).1
    tick : (w : UserTable) (n : ℕ) → Step w (record w { clock = w.clock + n })
    other_inserts :
        (w : UserTable) (u : User)
        → u.id ≡ w.next_id
        → IsUsername u.username
        → violates u (w.committed ++ w.others) ≡ false
        → Step w (record w { others = w.others ++ u ∷ []; next_id = w.next_id + 1 })
    other_updates :
        (w : UserTable) (u : User)
        → IsUsername u.username
        → violates u (w.committed ++ w.others) ≡ false
        → Step w (record w {
          committed = map (replace u) w.committed;
          session = map (replace u) w.session;
          others = map (replace u) w.others;
        })
    other_deletes :
        (w : UserTable) (remains : User → Bool)
        → Step w (record w {
          committed = keep remains w.committed;
          session = keep remains w.session;
          others = keep remains w.others;
        })

  pub data Reach (v : UserTable) : UserTable → Type 0 where
    start : Reach v v
    next : {w x : UserTable} → Reach v w → Step w x → Reach v x

-- Between requests: nothing is pending, the rows have different ids, names and emails, and every name
-- is a name.
abbrev pub IsSound : UserTable → Type 0
IsSound w = (w.session ≡ w.committed) × IsTable w.next_id (w.committed ++ w.others)

keep-append : (p : User → Bool) (xs ys : List User) → keep p (xs ++ ys) ≡ keep p xs ++ keep p ys
keep-append p [] ys = refl
keep-append p (x ∷ xs) ys = elim (Bool-cases (p x)) [
  | inl e ↦ rw e (ap (λ rest. x ∷ rest) (keep-append p xs ys))
  | inr e ↦ rw e (keep-append p xs ys)
]

good : (w : UserTable) → IsSound w → IsGood w
good w (e, h) = (subst (λ rows. IsTable w.next_id (rows ++ w.others)) (sym e) h, h)

module _ (t : Texts) (c : Crypto) (settings : Settings) where
  settled :
      {A : Type 0} (Q : A → Type 0) (m : M UserTable A) (w : UserTable)
      → Keeps Q m
      → IsSound w
      → IsSound (in_session m w).1
  unfolding in_session
  settled Q m w k h = (refl, ((in_session-Keeps Q m k).keeps w (good w h)).0.1)

  as_user-IsSound :
      {A : Type 0} (Q : A → Type 0) (token : Text) (body : User → M UserTable A) (w : UserTable)
      → ((u : User) → IsNamed u → Keeps Q (body u))
      → IsSound w
      → IsSound (as_user t c settings token body w).1
  unfolding as_user
  as_user-IsSound Q token body w k h =
      settled Q _ w
        (bind-Keeps IsNamed Q (get_current_user c settings token) body
          (get_current_user-Keeps c settings token) k)
        h

  as_admin-IsSound :
      {A : Type 0} (Q : A → Type 0) (token : Text) (body : M UserTable A) (w : UserTable)
      → Keeps Q body
      → IsSound w
      → IsSound (as_admin t c settings token body w).1
  unfolding as_admin
  as_admin-IsSound Q token body w k h =
      as_user-IsSound Q token _ w
        (λ u _.
          bind-Keeps AnyValue Q (lift (require_roles (admin ∷ []) u)) (λ _. body)
            (lift-Keeps AnyValue _ (AnyValue-Holds _)) (λ _ _. k))
        h

  create_token_pair-Keeps : (u : User) → Keeps AnyValue (create_token_pair c settings u)
  unfolding create_token_pair
  create_token_pair-Keeps u = record { keeps = λ w g. (g, tt) }

  login-Keeps : (raw : LoginRequest) → Keeps AnyValue (login c settings raw)
  unfolding login
  login-Keeps raw =
      bind-Keeps IsSomeNamed AnyValue _ _ (get_by_username-Keeps c.lower raw.username) (λ found _.
        bind-Keeps AnyValue AnyValue _ _
          (lift-Keeps AnyValue (authenticated c settings raw.password found) (AnyValue-Holds _))
          (λ u _. create_token_pair-Keeps u))

  refresh_tokens-Keeps : (token : Text) → Keeps AnyValue (refresh_tokens c settings token)
  unfolding refresh_tokens
  refresh_tokens-Keeps token = record {
    keeps = λ w g.
        (bind-Keeps AnyValue AnyValue (lift (decode_token c w.clock token settings refresh)) _
            (lift-Keeps AnyValue _ (AnyValue-Holds _))
            (λ payload _.
              bind-Keeps AnyValue AnyValue _ _
                (lift-Keeps AnyValue (subject_id c payload) (AnyValue-Holds _))
                (λ user_id _.
                  bind-Keeps IsSomeNamed AnyValue _ _ (get_by_id-Keeps user_id) (λ found h.
                    bind-Keeps AnyValue AnyValue _ _
                      (lift-Keeps AnyValue (or_unauthenticated "Invalid refresh token" found)
                        (AnyValue-Holds _))
                      (λ u _. create_token_pair-Keeps u))))).keeps
          w g;
  }

module _ (t : Texts) (c : Crypto) (settings : Settings) (ascii : LowersAscii t.lower) where
  Step-IsSound : {w x : UserTable} → Step t c settings w x → IsSound w → IsSound x
  unfolding post_user patch_me delete_me read_user patch_user remove_user get_me post_login
      post_refresh post_change_password initial_admin
  Step-IsSound (post_user_step w token raw) h =
      as_admin-IsSound t c settings IsNamed token _ w
        (bind-Keeps (λ p. IsUsername p.username) IsNamed (lift (validate_user_create t raw)) _
          (lift-Keeps _ _ (result-Holds _ _ (create_name t ascii raw)))
          (λ p name. create_user-Keeps c settings p name))
        h
  Step-IsSound (patch_me_step w token raw) h =
      as_user-IsSound t c settings IsNamed token _ w
        (λ u named.
          bind-Keeps (λ p. IsNamedChange p.username) IsNamed (lift (validate_user_update t raw)) _
            (lift-Keeps _ _ (result-Holds _ _ (update_name t ascii raw)))
            (λ p change. update_profile-Keeps c settings u p named change))
        h
  Step-IsSound (delete_me_step w token) h =
      as_user-IsSound t c settings AnyValue token _ w (λ u _. delete_account-Keeps u) h
  Step-IsSound (read_user_step w token user_id) h =
      as_admin-IsSound t c settings IsNamed token _ w (get_user-Keeps user_id) h
  Step-IsSound (patch_user_step w token user_id raw) h =
      as_admin-IsSound t c settings IsNamed token _ w
        (bind-Keeps (λ p. IsNamedChange p.username) IsNamed
          (lift (validate_user_admin_update t raw)) _
          (lift-Keeps _ _ (result-Holds _ _ (admin_update_name t ascii raw)))
          (λ p change. update_user-Keeps c settings user_id p change))
        h
  Step-IsSound (remove_user_step w token user_id) h =
      as_admin-IsSound t c settings AnyValue token _ w (delete_user-Keeps user_id) h
  Step-IsSound (get_me_step w token) h =
      as_user-IsSound t c settings IsNamed token _ w (λ u named. pure-Keeps IsNamed u named) h
  Step-IsSound (login_step w raw) h =
      settled t c settings AnyValue _ w
        (bind-Keeps AnyValue AnyValue (lift (validate_login t raw)) _
          (lift-Keeps AnyValue _ (AnyValue-Holds _)) (λ p _. login-Keeps t c settings p))
        h
  Step-IsSound (refresh_step w token) h =
      settled t c settings AnyValue _ w
        (bind-Keeps AnyValue AnyValue (lift (validate_refresh token)) _
          (lift-Keeps AnyValue _ (AnyValue-Holds _)) (λ p _. refresh_tokens-Keeps t c settings p))
        h
  Step-IsSound (change_password_step w token raw) h =
      as_user-IsSound t c settings AnyValue token _ w
        (λ u named.
          bind-Keeps AnyValue AnyValue (lift (validate_change_password raw)) _
            (lift-Keeps AnyValue _ (AnyValue-Holds _))
            (λ p _. change_password-Keeps c settings u p named))
        h
  Step-IsSound (initial_admin_step w password) h =
      settled t c settings AnyValue _ w (create_initial_admin-Keeps t c settings ascii password) h
  Step-IsSound (tick w n) h = h
  Step-IsSound (other_updates w u name taken) (e, h) = (
    ap (map (replace u)) e,
    subst (IsTable w.next_id) (map-append (replace u) w.committed w.others)
        (replace-IsTable w.next_id u (w.committed ++ w.others) name taken h),
  )
  Step-IsSound (other_deletes w remains) (e, h) = (
    ap (keep remains) e,
    subst (IsTable w.next_id) (keep-append remains w.committed w.others)
        (keep-IsTable w.next_id remains (w.committed ++ w.others) h),
  )
  Step-IsSound (other_inserts w u fresh name taken) (e, h) = (
    e,
    subst (IsTable (w.next_id + 1)) (append_assoc w.committed w.others (u ∷ []))
        (snoc-IsTable w.next_id (w.committed ++ w.others) u fresh name taken h),
  )

  -- From a sound table, every table is sound that requests, runs of the script that makes the first
  -- administrator, and other processes that insert, change and delete rows can reach, as long as every name
  -- that those processes write has only the characters of a name and the database takes their rows. A run of
  -- scripts/create_power_bi_user.sh, which validates no name, is not covered. In a sound table nothing is
  -- pending between requests, no two users have the same id, name or email, and every name consists of
  -- lowercase letters, digits, `_`, `.` and `-`. `lower` maps ASCII text as `str.lower` does.
  pub Reach-IsSound : {v w : UserTable} → Reach t c settings v w → IsSound v → IsSound w
  Reach-IsSound start h = h
  Reach-IsSound (next r s) h = Step-IsSound s (Reach-IsSound r h)
