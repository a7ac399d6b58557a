-- ===== src/Dynamic/Endpoints/Collisions.antt =====
-- What a dynamic route must not collide with: `_reject_static_get_collision` of
-- app/api/v1/endpoints/dynamic_routes.py.
use mathlib.Core.Path.{subst}
use data_api.Prelude.{
  ◌++◌, sym, any, Any, here, there, inl, inr, Bool-cases, ◌⊎◌, arith, Bool, true, false, Option,
  none, some, List, [], ◌∷◌, ◌≡◌, refl, ap,
}
use data_api.Text.{Text, codes, eq_text, eq_text_iff, eq_text_refl, rstrip_char}
use data_api.Dynamic.Endpoints.{
  contains, has_get, is_static_get, RegisteredRoute, reject_static_get_collision,
}
use data_api.Errors.{conflict_error, Exc, ok, err}

-- A route that serves GET under the path, and is no catch-all.
abbrev pub ServesGet : Option (List Text) → Type 0
ServesGet none = ⊥
ServesGet (some methods) = Any (λ m. m ≡ codes "GET") methods

abbrev pub IsStaticGet : Text → RegisteredRoute → Type 0
IsStaticGet effective_path r =
    (r.path ≡ some effective_path)
    × ServesGet r.methods
    × (contains (codes "{path:path}") effective_path ≡ false)

abbrev pub Collides : List RegisteredRoute → Text → Text → Text → Type 0
Collides routes api_v1_prefix prefix path =
    Any (IsStaticGet (rstrip_char b'/' api_v1_prefix ++ b'/' ∷ (prefix ++ b'/' ∷ path))) routes

abbrev pub path_conflict : Exc
path_conflict =
    conflict_error "Dynamic route conflicts with a static GET endpoint"
      "dynamic_route_path_conflict"

-- A test that decides a predicate finds an element that has it, or there is none.
module _ {A : Type 0} (P : A → Type 0) (p : A → Bool) (yes : (x : A) → p x ≡ true → P x)
    (no : (x : A) → P x → p x ≡ true) where
  any_lem : (xs : List A) → (Any P xs × (any p xs ≡ true)) ⊎ (¬ Any P xs × (any p xs ≡ false))
  any_lem [] = inr ((λ m. elim m [ ]), refl)
  any_lem (x ∷ xs) = elim (Bool-cases (p x)) [
    | inl e ↦ inl (here (yes x e), rw e refl)
    | inr e ↦ elim (any_lem xs) [
      | inl (m, h) ↦ inl (there m, rw (e, h) refl)
      | inr (none_of, h) ↦ inr (not_any x xs e none_of, rw (e, h) refl)
    ]
  ]
    where
      not_any : (x : A) (xs : List A) → p x ≡ false → ¬ Any P xs → ¬ Any P (x ∷ xs)
      not_any x xs e none_of (here h) = absurd (ground (arith, e, no x h))
      not_any x xs e none_of (there m) = none_of m

has_get-ServesGet : (ms : Option (List Text)) → has_get ms ≡ true → ServesGet ms
has_get-ServesGet none e = absurd (ground (arith, e))
has_get-ServesGet (some ms) e =
    elim (any_lem (λ m. m ≡ codes "GET") (eq_text (codes "GET"))
      (λ m h. sym ((eq_text_iff (codes "GET") m).0 h))
      (λ m h. (eq_text_iff (codes "GET") m).1 (sym h)) ms) [
        | inl (m, _) ↦ m
        | inr (_, f) ↦ absurd (ground (arith, e, f))
      ]

ServesGet-has_get : (ms : Option (List Text)) → ServesGet ms → has_get ms ≡ true
ServesGet-has_get none h = elim h [ ]
ServesGet-has_get (some ms) h =
    elim (any_lem (λ m. m ≡ codes "GET") (eq_text (codes "GET"))
      (λ m h. sym ((eq_text_iff (codes "GET") m).0 h))
      (λ m h. (eq_text_iff (codes "GET") m).1 (sym h)) ms) [
        | inl (_, f) ↦ f
        | inr (none_of, _) ↦ absurd (none_of h)
      ]

is_static_get-IsStaticGet :
    (effective_path : Text) (r : RegisteredRoute)
    → is_static_get effective_path r.path r.methods ≡ true
    → IsStaticGet effective_path r
is_static_get-IsStaticGet effective_path r = of_path r.path
  where
    of_path :
        (o : Option Text)
        → is_static_get effective_path o r.methods ≡ true
        → (o ≡ some effective_path)
          × ServesGet r.methods
          × (contains (codes "{path:path}") effective_path ≡ false)
    of_path none e = absurd (ground (arith, e))
    of_path (some path) e =
        let same : path ≡ effective_path =
          (eq_text_iff path effective_path).0 (ground (arith, e)) in
        (
          ap some same,
          has_get-ServesGet r.methods (ground (arith, e)),
          subst (λ p. contains (codes "{path:path}") p ≡ false) same (ground (arith, e)),
        )

IsStaticGet-is_static_get :
    (effective_path : Text) (r : RegisteredRoute)
    → IsStaticGet effective_path r
    → is_static_get effective_path r.path r.methods ≡ true
IsStaticGet-is_static_get effective_path r (path, get, plain) =
    rw (path, eq_text_refl effective_path, ServesGet-has_get r.methods get, plain) refl

-- The check raises the conflict exactly if there is such a route.
pub reject_static_get_collision_lem :
    (routes : List RegisteredRoute) (api_v1_prefix prefix path : Text)
    → (Collides routes api_v1_prefix prefix path
        × (reject_static_get_collision routes api_v1_prefix prefix path ≡ err path_conflict))
      ⊎ (¬ Collides routes api_v1_prefix prefix path
          × (reject_static_get_collision routes api_v1_prefix prefix path ≡ ok tt))
unfolding reject_static_get_collision
reject_static_get_collision_lem routes api_v1_prefix prefix path =
    elim (any_lem (IsStaticGet effective_path) (λ r. is_static_get effective_path r.path r.methods)
      (is_static_get-IsStaticGet effective_path) (IsStaticGet-is_static_get effective_path)
      routes) [ inl (m, e) ↦ inl (m, rw e refl) | inr (none_of, e) ↦ inr (none_of, rw e refl) ]
  where
    effective_path : Text
    effective_path = rstrip_char b'/' api_v1_prefix ++ b'/' ∷ (prefix ++ b'/' ∷ path)
