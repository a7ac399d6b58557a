-- ===== src/Access/Repository/Keeps.antt =====
-- What calls leave of the table, whatever they return or raise.
use mathlib.Core.List.{append-nil}
use mathlib.Core.Path.{subst}
use data_api.Prelude.{
  false, arith, any, none, Bool-cases, ◌∷◌, true, some, keep, [], All, ◌≡◌, ◌++◌, ℕ, Option, List,
  Bool, inl, inr, refl, sym, ◌+◌,
}
use data_api.Text.{Text}
use data_api.Access.Repository.{
  UserTable, Change, unset, set, UserValues, violates, has_id, arrive, get_by_id, get_by_email,
  get_by_username, insert_row, create, with_email, with_password, with_username, with_role,
  apply_values, write_row, update, delete, commit, rollback, in_session,
}
use data_api.Access.Repository.Table.{
  IsUsername, IsRow, IsTable, snoc-IsTable, keep-IsTable, replace-IsTable,
}
use data_api.Access.Users.{UserRole, User}
use data_api.Errors.{Exc, Result, ok, err}
use data_api.Session.{◌>>=◌, raise_if, scalar_one_or_none, M, continue, pure, lift}

-- Both what the session sees and what is committed are tables, with the rows that others commit.
abbrev pub IsGood : UserTable → Type 0
IsGood w = IsTable w.next_id (w.session ++ w.others) × IsTable w.next_id (w.committed ++ w.others)

abbrev pub Holds : {A : Type 0} → (A → Type 0) → Result A → Type 0
Holds Q (ok a) = Q a
Holds Q (err e) = Unit

-- The call keeps the table good, and what it returns satisfies `Q`.
pub record Keeps {A : Type 0} (Q : A → Type 0) (m : M UserTable A) : Type 0 where
  pub keeps : (w : UserTable) → IsGood w → IsGood (m w).1 × Holds Q (m w).0

abbrev pub AnyValue : {A : Type 0} → A → Type 0
AnyValue a = Unit

abbrev pub IsNamed : User → Type 0
IsNamed u = IsUsername u.username

abbrev pub IsSomeNamed : Option User → Type 0
IsSomeNamed none = Unit
IsSomeNamed (some u) = IsNamed u

module _ {A B : Type 0} (Q : A → Type 0) (R : B → Type 0) where
  continue-Keeps :
      (r : Result A) (f : A → M UserTable B) (w : UserTable)
      → IsGood w
      → Holds Q r
      → ((a : A) → Q a → Keeps R (f a))
      → IsGood (continue r f w).1 × Holds R (continue r f w).0
  continue-Keeps (ok a) f w g q k = (k a q).keeps w g
  continue-Keeps (err e) f w g q k = (g, tt)

  pub bind-Keeps :
      (m : M UserTable A) (f : A → M UserTable B)
      → Keeps Q m
      → ((a : A) → Q a → Keeps R (f a))
      → Keeps R (m >>= f)
  bind-Keeps m f h k = record {
    keeps = λ w g. let (g', q) = h.keeps w g in continue-Keeps (m w).0 f (m w).1 g' q k;
  }

module _ {A : Type 0} (Q : A → Type 0) where
  pub lift-Keeps : (r : Result A) → Holds Q r → Keeps Q (lift r)
  lift-Keeps r h = record { keeps = λ w g. (g, h) }

  pub pure-Keeps : (a : A) → Q a → Keeps Q (pure a)
  pure-Keeps a h = record { keeps = λ w g. (g, h) }

pub raise_if-Keeps : (b : Bool) (e : Exc) → Keeps AnyValue (raise_if b e)
raise_if-Keeps true e = record { keeps = λ w g. (g, tt) }
raise_if-Keeps false e = record { keeps = λ w g. (g, tt) }

All-prefix : (P : User → Type 0) (xs ys : List User) → All P (xs ++ ys) → All P xs
All-prefix P [] ys h = tt
All-prefix P (x ∷ xs) ys (h, hs) = (h, All-prefix P xs ys hs)

scalar_one_or_none-IsSomeNamed :
    (n : ℕ) (rows : List User) → All (IsRow n) rows → Holds IsSomeNamed (scalar_one_or_none rows)
unfolding scalar_one_or_none
scalar_one_or_none-IsSomeNamed n [] h = tt
scalar_one_or_none-IsSomeNamed n (r ∷ []) ((i, name), h) = name
scalar_one_or_none-IsSomeNamed n (r ∷ s ∷ rows) h = tt

kept_rows :
    (p : User → Bool) (w : UserTable)
    → IsGood w
    → Holds IsSomeNamed (scalar_one_or_none (keep p w.session))
kept_rows p w ((u, h), c) =
    scalar_one_or_none-IsSomeNamed w.next_id (keep p w.session)
      (All-kept w.session (All-prefix (IsRow w.next_id) w.session w.others h))
  where
    All-kept : (rows : List User) → All (IsRow w.next_id) rows → All (IsRow w.next_id) (keep p rows)
    All-kept [] h = tt
    All-kept (r ∷ rows) (i, hs) = elim (Bool-cases (p r)) [
      | inl e ↦ rw e (i, All-kept rows hs)
      | inr e ↦ rw e (All-kept rows hs)
    ]

-- Looking a user up keeps the table good and gives a user whose name is a name.
pub get_by_id-Keeps : (user_id : ℕ) → Keeps IsSomeNamed (get_by_id user_id)
unfolding get_by_id
get_by_id-Keeps user_id = record { keeps = λ w g. (g, kept_rows (has_id user_id) w g) }

pub get_by_email-Keeps :
    (lower : Text → Text) (email : Text) → Keeps IsSomeNamed (get_by_email lower email)
unfolding get_by_email
get_by_email-Keeps lower email = record { keeps = λ w g. (g, kept_rows _ w g) }

pub get_by_username-Keeps :
    (lower : Text → Text) (username : Text) → Keeps IsSomeNamed (get_by_username lower username)
unfolding get_by_username
get_by_username-Keeps lower username = record { keeps = λ w g. (g, kept_rows _ w g) }

-- With no rows on the way, both tables stand alone.
alone : (n : ℕ) (rows : List User) → IsTable n rows → IsTable n (rows ++ [])
alone n rows h = subst (IsTable n) (sym (append-nil rows)) h

insert_row-IsGood :
    (user : User) (w : UserTable)
    → IsNamed user
    → IsTable w.next_id w.session
    → IsTable w.next_id w.committed
    → w.others ≡ []
    → IsGood (insert_row user w).1 × Holds IsNamed (insert_row user w).0
unfolding insert_row
insert_row-IsGood user w name s c none_left =
    elim (Bool-cases (violates (record user { id = w.next_id }) w.session)) [
      | inl v ↦
          rw v (rw none_left ((alone w.next_id w.session s, alone w.next_id w.committed c), tt))
      | inr v ↦ rw v (
          rw none_left (
            (
              alone (w.next_id + 1) (w.session ++ record user { id = w.next_id } ∷ [])
                  (snoc-IsTable w.next_id w.session (record user { id = w.next_id }) refl name v s),
              alone (w.next_id + 1) w.committed (later w.next_id w.committed c),
            ),
            name,
          ))
    ]
  where
    later : (n : ℕ) (rows : List User) → IsTable n rows → IsTable (n + 1) rows
    later n [] h = (tt, tt)
    later n (r ∷ rows) ((a, u), ((i, name), h)) =
        let (u', h') = later n rows (u, h) in ((a, u'), ((omega arith, name), h'))

-- Creating a user whose name is a name keeps the table good.
pub create-Keeps : (user : User) → IsNamed user → Keeps IsNamed (create user)
unfolding create
create-Keeps user name = record {
  keeps = λ w g. insert_row-IsGood user (arrive w) name g.0 g.1 refl;
}

write_row-IsGood :
    (o : Option User) (w : UserTable)
    → IsSomeNamed o
    → IsTable w.next_id w.session
    → IsTable w.next_id w.committed
    → w.others ≡ []
    → IsGood (write_row o w).1 × Holds IsNamed (write_row o w).0
unfolding write_row
write_row-IsGood none w name s c none_left =
    rw none_left ((alone w.next_id w.session s, alone w.next_id w.committed c), tt)
write_row-IsGood (some u) w name s c none_left = elim (Bool-cases (any (has_id u.id) w.session)) [
  | inr gone ↦
      rw gone (rw none_left ((alone w.next_id w.session s, alone w.next_id w.committed c), tt))
  | inl there ↦ rw there (elim (Bool-cases (violates u w.session)) [
    | inl v ↦ rw v (rw none_left ((alone w.next_id w.session s, alone w.next_id w.committed c), tt))
    | inr v ↦ rw v (
        rw none_left (
          (
            alone w.next_id _ (replace-IsTable w.next_id u w.session name v s),
            alone w.next_id w.committed c,
          ),
          name,
        ))
  ])
]

abbrev pub IsNamedChange : Change (Option Text) → Type 0
IsNamedChange unset = Unit
IsNamedChange (set none) = Unit
IsNamedChange (set (some n)) = IsUsername n

apply_values-IsSomeNamed :
    (u : User) (values : UserValues)
    → IsNamed u
    → IsNamedChange values.username
    → IsSomeNamed (apply_values u values)
unfolding apply_values
apply_values-IsSomeNamed u values name h = roles values.role _ (
    names values.username (with_password values.hashed_password (with_email values.email u)) kept h)
  where
    kept : IsNamed (with_password values.hashed_password (with_email values.email u))
    kept = passwords values.hashed_password (with_email values.email u) (emails values.email)
      where
        emails : (change : Change (Option Text)) → IsNamed (with_email change u)
        emails unset = name
        emails (set e) = name

        passwords : (change : Change Text) (v : User) → IsNamed v → IsNamed (with_password change v)
        passwords unset v k = k
        passwords (set p) v k = k

    names :
        (change : Change (Option Text)) (v : User)
        → IsNamed v
        → IsNamedChange change
        → IsSomeNamed (with_username change v)
    names unset v k l = k
    names (set none) v k l = tt
    names (set (some n)) v k l = l

    roles :
        (change : Change (Option UserRole)) (o : Option User)
        → IsSomeNamed o
        → IsSomeNamed (with_role change o)
    roles change none k = tt
    roles unset (some v) k = k
    roles (set none) (some v) k = tt
    roles (set (some r)) (some v) k = k

-- Changing a user keeps the table good, where the name is not changed or to a name.
pub update-Keeps :
    (u : User) (values : UserValues)
    → IsNamed u
    → IsNamedChange values.username
    → Keeps IsNamed (update u values)
unfolding update
update-Keeps u values name h = record {
  keeps = λ w g.
      write_row-IsGood (apply_values u values) (arrive w) (apply_values-IsSomeNamed u values name h)
        g.0 g.1 refl;
}

pub delete-Keeps : (u : User) → Keeps AnyValue (delete u)
unfolding delete
delete-Keeps u = record {
  keeps = λ w g. (
    (
      alone w.next_id _ (keep-IsTable w.next_id _ (w.session ++ w.others) g.0),
      alone w.next_id (w.committed ++ w.others) g.1,
    ),
    tt,
  );
}

pub commit-Keeps : Keeps AnyValue commit
unfolding commit
commit-Keeps = record { keeps = λ w g. ((g.0, g.0), tt) }

pub rollback-IsGood : (w : UserTable) → IsGood w → IsGood (rollback w)
unfolding rollback
rollback-IsGood w (s, c) = (c, c)

-- A request keeps the table good where its code does.
pub in_session-Keeps :
    {A : Type 0} (Q : A → Type 0) (m : M UserTable A) → Keeps Q m → Keeps Q (in_session m)
unfolding in_session
in_session-Keeps Q m k = record {
  keeps = λ w g. let (g', q) = k.keeps w g in (rollback-IsGood (m w).1 g', q);
}
