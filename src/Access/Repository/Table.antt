-- ===== src/Access/Repository/Table.antt =====
-- The table of users: its unique keys, and how writing rows keeps them.
use data_api.Prelude.{
  some, ◌||◌, none, inr, ==→eq, inl, ◌+◌, ◌++◌, ◌&&◌, not, map, [], Bool-cases, true, leb, keep,
  false, All, ◌∷◌, ◌≡◌, ◌==◌, ℕ, Option, List, Bool, ◌<◌, refl, ◌∙◌, arith,
}
use data_api.Text.{eq_text_iff, eq_text, Text}
use data_api.Access.Repository.{same_email, same_key, violates, has_id, replace}
use data_api.Access.Users.{User}

-- [a-z0-9_.-]
abbrev pub is_username_char : ℕ → Bool
is_username_char c =
    (leb b'a' c && leb c b'z') || (leb b'0' c && leb c b'9') || c == b'_' || c == b'.' || c == b'-'

abbrev pub IsUsername : Text → Type 0
IsUsername s = All (λ c. is_username_char c ≡ true) s

-- Different rows, with different keys.
abbrev pub Apart : User → User → Type 0
Apart r s = ((r.id == s.id) ≡ false) × (same_key r s ≡ false)

abbrev pub IsUnique : List User → Type 0
IsUnique [] = Unit
IsUnique (r ∷ rs) = All (Apart r) rs × IsUnique rs

-- Every id is below the next one, every name is a name.
abbrev pub IsRow : ℕ → User → Type 0
IsRow n u = (u.id < n) × IsUsername u.username

abbrev pub IsTable : ℕ → List User → Type 0
IsTable n rows = IsUnique rows × All (IsRow n) rows

eq_text_sym : (s t : Text) → eq_text s t ≡ eq_text t s
eq_text_sym s t = ground (arith, eq_text_iff s t, eq_text_iff t s)

same_email_sym : (a b : Option Text) → same_email a b ≡ same_email b a
same_email_sym none none = refl
same_email_sym none (some e) = refl
same_email_sym (some d) none = refl
same_email_sym (some d) (some e) = eq_text_sym e d

same_key_sym : (r s : User) → same_key r s ≡ same_key s r
same_key_sym r s = rw (eq_text_sym r.username s.username) (rw (same_email_sym r.email s.email) refl)

Apart-sym : (r s : User) → Apart r s → Apart s r
Apart-sym r s (i, k) = (ground (arith, i), same_key_sym s r ∙ k)

module _ {P Q : User → Type 0} where
  All-map : (rows : List User) → ((u : User) → P u → Q u) → All P rows → All Q rows
  All-map [] f h = tt
  All-map (r ∷ rs) f (h, hs) = (f r h, All-map rs f hs)

module _ (P : User → Type 0) where
  pub All-append_of : (xs ys : List User) → All P xs → All P ys → All P (xs ++ ys)
  All-append_of [] ys h k = k
  All-append_of (x ∷ xs) ys (h, hs) k = (h, All-append_of xs ys hs k)

  All-keep_of : (p : User → Bool) (xs : List User) → All P xs → All P (keep p xs)
  All-keep_of p [] h = tt
  All-keep_of p (x ∷ xs) (h, hs) = elim (Bool-cases (p x)) [
    | inl e ↦ rw e (h, All-keep_of p xs hs)
    | inr e ↦ rw e (All-keep_of p xs hs)
  ]

IsUnique-snoc :
    (xs : List User) (r : User) → IsUnique xs → All (λ s. Apart s r) xs → IsUnique (xs ++ r ∷ [])
IsUnique-snoc [] r u h = (tt, tt)
IsUnique-snoc (x ∷ xs) r (a, u) (h, hs) =
    (All-append_of (Apart x) xs (r ∷ []) a (h, tt), IsUnique-snoc xs r u hs)

not_violated :
    (n : ℕ) (r : User) (rows : List User)
    → r.id ≡ n
    → violates r rows ≡ false
    → All (IsRow n) rows
    → All (λ s. Apart s r) rows
unfolding violates
not_violated n r [] e v h = tt
not_violated n r (s ∷ rows) e v ((lt, name), h) =
    let other : (s.id == r.id) ≡ false = ground (arith, lt, e) in
    ((other, ground (arith, other, v)), not_violated n r rows e (ground (arith, v)) h)

-- A new row with the next id that violates no index keeps the table.
pub snoc-IsTable :
    (n : ℕ) (rows : List User) (r : User)
    → r.id ≡ n
    → IsUsername r.username
    → violates r rows ≡ false
    → IsTable n rows
    → IsTable (n + 1) (rows ++ r ∷ [])
snoc-IsTable n rows r e name v (u, h) = (
  IsUnique-snoc rows r u (not_violated n r rows e v h),
  All-append_of (IsRow (n + 1)) rows (r ∷ []) (All-map rows (λ s i. (omega (arith, i.0), i.1)) h)
      ((omega (arith, e), name), tt),
)

-- Removing rows keeps the table.
pub keep-IsTable :
    (n : ℕ) (p : User → Bool) (rows : List User) → IsTable n rows → IsTable n (keep p rows)
keep-IsTable n p [] h = (tt, tt)
keep-IsTable n p (r ∷ rows) ((a, u), (i, h)) =
    let (u', h') = keep-IsTable n p rows (u, h) in
    elim (Bool-cases (p r)) [
      | inl e ↦ rw e ((All-keep_of (Apart r) p rows a, u'), (i, h'))
      | inr e ↦ rw e (u', h')
    ]

-- A row that is in no conflict with the table stands apart from a row with another id.
not_violates-Apart :
    (u r : User) → (r.id == u.id) ≡ false → (not (r.id == u.id) && same_key r u) ≡ false → Apart r u
not_violates-Apart u r other v = (other, ground (arith, other, v))

All-replace :
    (u x : User) (rows : List User)
    → Apart x u
    → All (Apart x) rows
    → All (Apart x) (map (replace u) rows)
All-replace u x [] a h = tt
All-replace u x (r ∷ rows) a (h, hs) = elim (Bool-cases (has_id u.id r)) [
  | inl e ↦ rw e (a, All-replace u x rows a hs)
  | inr e ↦ rw e (h, All-replace u x rows a hs)
]

All-replaced :
    (u r : User) (rows : List User)
    → (r.id == u.id) ≡ true
    → violates u rows ≡ false
    → All (Apart r) rows
    → All (Apart u) (map (replace u) rows)
unfolding violates
All-replaced u r [] e v h = tt
All-replaced u r (s ∷ rows) e v ((i, k), hs) =
    let other : (s.id == u.id) ≡ false = ground (arith, e, i) in
    rw other (
      Apart-sym s u (not_violates-Apart u s other (ground (arith, v))),
      All-replaced u r rows e (ground (arith, v)) hs,
    )

-- A changed row that violates no index keeps the table.
pub replace-IsTable :
    (n : ℕ) (u : User) (rows : List User)
    → IsUsername u.username
    → violates u rows ≡ false
    → IsTable n rows
    → IsTable n (map (replace u) rows)
unfolding violates
replace-IsTable n u [] name v h = (tt, tt)
replace-IsTable n u (r ∷ rows) name v ((a, un), (i, h)) =
    let (un', h') = replace-IsTable n u rows name (ground (arith, v)) (un, h) in
    elim (Bool-cases (has_id u.id r)) [
      | inl e ↦ rw e (
        (All-replaced u r rows e (ground (arith, v)) a, un'),
        ((omega (arith, i.0, ==→eq r.id u.id e), name), h'),
      )
      | inr e ↦
          rw e
            ((All-replace u r rows (not_violates-Apart u r e (ground (arith, v))) a, un'), (i, h'))
    ]
