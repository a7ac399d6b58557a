-- ===== src/Access/InitialAdmin/Rows.antt =====
-- Administrators in the rows of the table.
use data_api.Prelude.{
  cons_if, inr, inl, arith, Bool-cases, Bool, true, false, ◌||◌, some, List, [], ◌∷◌, ◌++◌, map,
  keep, any, ◌≡◌, refl,
}
use data_api.Access.InitialAdmin.{first}
use data_api.Access.Repository.{has_id, replace}
use data_api.Access.Users.{User, is_admin}

abbrev pub has_admin : List User → Bool
has_admin rows = any (λ u. is_admin u.role) rows

pub first-has_admin :
    (rows : List User) (u : User)
    → first (keep (λ u. is_admin u.role) rows) ≡ some u
    → has_admin rows ≡ true
first-has_admin [] u e = cc
first-has_admin (r ∷ rows) u e = by_role (is_admin r.role) e (first-has_admin rows u)
  where
    by_role :
        (b : Bool)
        → first (cons_if b r (keep (λ u. is_admin u.role) rows)) ≡ some u
        → (first (keep (λ u. is_admin u.role) rows) ≡ some u → has_admin rows ≡ true)
        → (b || has_admin rows) ≡ true
    by_role true f k = refl
    by_role false f k = k f

pub has_admin-first :
    (rows : List User)
    → has_admin rows ≡ true
    → (u : User) × (first (keep (λ u. is_admin u.role) rows) ≡ some u)
has_admin-first [] e = cc
has_admin-first (r ∷ rows) e = by_role (is_admin r.role) e (has_admin-first rows)
  where
    by_role :
        (b : Bool)
        → (b || has_admin rows) ≡ true
        → (has_admin rows ≡ true → (u : User) × (first (keep (λ u. is_admin u.role) rows) ≡ some u))
        → (u : User) × (first (cons_if b r (keep (λ u. is_admin u.role) rows)) ≡ some u)
    by_role true f k = (r, refl)
    by_role false f k = k f

or_true : (b : Bool) → (b || true) ≡ true
or_true true = refl
or_true false = refl

pub has_admin-snoc :
    (rows : List User) (u : User) → is_admin u.role ≡ true → has_admin (rows ++ u ∷ []) ≡ true
has_admin-snoc [] u h = rw h refl
has_admin-snoc (r ∷ rows) u h = rw (has_admin-snoc rows u h) (or_true (is_admin r.role))

pub has_admin-replace :
    (rows : List User) (u : User)
    → is_admin u.role ≡ true
    → any (has_id u.id) rows ≡ true
    → has_admin (map (replace u) rows) ≡ true
has_admin-replace [] u h e = cc
has_admin-replace (r ∷ rows) u h e = elim (Bool-cases (has_id u.id r)) [
  | inl i ↦ rw (i, h) refl
  | inr i ↦ rw (has_admin-replace rows u h (rest i e)) (or_true (is_admin (replace u r).role))
]
  where
    rest :
        has_id u.id r ≡ false → any (has_id u.id) (r ∷ rows) ≡ true → any (has_id u.id) rows ≡ true
    rest i e = ground arith
