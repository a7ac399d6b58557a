-- ===== src/Access/Permission/Exclusive.antt =====
-- Which users may call a route.
use mathlib.Core.List.{append_assoc, append-nil}
use mathlib.Core.Path.{ap₂}
use data_api.Prelude.{
  inr, refl, ap, [], ◌∷◌, ◌++◌, true, false, ℕ, inl, ◌∙◌, Bool-cases, sym, arith, ◌≡◌,
}
use data_api.Text.{eq_text→eq, eq_text, rstrip_char, starts_with, Text}
use data_api.Access.Permission.{or_slash, route_matches_username, check_api_permission}
use data_api.Access.Users.{User, is_admin}
use data_api.Text.Laws.{Without}
use data_api.Value.{Runtime}

-- Empty, or behind a slash.
abbrev IsBehindSlash : Text → Type 0
IsBehindSlash [] = Unit
IsBehindSlash (c ∷ s) = c ≡ b'/'

starts_with_rest : (s t : Text) → starts_with s t ≡ true → (r : Text) × (s ≡ t ++ r)
unfolding starts_with
starts_with_rest s [] h = (s, refl)
starts_with_rest [] (b ∷ t) h = cc
starts_with_rest (a ∷ s) (b ∷ t) h =
    let (r, e) = starts_with_rest s t (ground arith) in
    let same : a ≡ b = ground (arith, h) in (r, ap₂ (λ c u. c ∷ u) same e)

matches_rest :
    (rt : Runtime) (path username : Text)
    → route_matches_username rt path username ≡ true
    → (r : Text) × IsBehindSlash r
      × (or_slash (rstrip_char b'/' path) ≡ b'/' ∷ (rt.lower username ++ r))
unfolding route_matches_username
matches_rest rt path username h =
    elim (Bool-cases (eq_text (or_slash (rstrip_char b'/' path)) (b'/' ∷ rt.lower username))) [
      | inl e ↦ (
        [],
        tt,
        eq_text→eq _ (b'/' ∷ rt.lower username) e
            ∙ ap (λ s. b'/' ∷ s) (sym (append-nil (rt.lower username))),
      )
      | inr e ↦
          let (r, q) =
            starts_with_rest (or_slash (rstrip_char b'/' path))
              (b'/' ∷ (rt.lower username ++ b'/' ∷ [])) (rw e at h) in
          (b'/' ∷ r, refl, q ∙ ap (λ s. b'/' ∷ s) (append_assoc (rt.lower username) (b'/' ∷ []) r))
    ]

head_inj : {a b : ℕ} {s t : Text} → a ∷ s ≡ b ∷ t → a ≡ b
head_inj e = cc

tail_inj : {a b : ℕ} {s t : Text} → a ∷ s ≡ b ∷ t → s ≡ t
tail_inj e = cc

-- Before its first slash a text is determined.
first_segment_unique :
    (u v r s : Text)
    → Without b'/' u
    → Without b'/' v
    → IsBehindSlash r
    → IsBehindSlash s
    → u ++ r ≡ v ++ s
    → u ≡ v
first_segment_unique [] [] r s hu hv hr hs e = refl
first_segment_unique [] (c ∷ v) [] s hu hv hr hs e = cc
first_segment_unique [] (c ∷ v) (d ∷ r) s hu (hc, hv) hr hs e =
    let same : d ≡ c = head_inj e in absurd (ground (arith, same, hr, hc))
first_segment_unique (c ∷ u) [] r [] hu hv hr hs e = cc
first_segment_unique (c ∷ u) [] r (d ∷ s) (hc, hu) hv hr hs e =
    let same : c ≡ d = head_inj e in absurd (ground (arith, same, hs, hc))
first_segment_unique (c ∷ u) (d ∷ v) r s (hc, hu) (hd, hv) hr hs e =
    ap₂ (λ x t. x ∷ t) (head_inj e) (first_segment_unique u v r s hu hv hr hs (tail_inj e))

matches_of_check :
    (rt : Runtime) (u : User) (path : Text)
    → is_admin u.role ≡ false
    → (check_api_permission rt u path).0 ≡ true
    → route_matches_username rt path u.username ≡ true
unfolding check_api_permission
matches_of_check rt u path h e = ground (arith, h, e)

-- Two users who are no admins, and whose lowercase names hold no slash, are permitted to call the
-- same route only if their lowercase names are the same.
pub check_api_permission-IsExclusive :
    (rt : Runtime) (u v : User) (path : Text)
    → is_admin u.role ≡ false
    → is_admin v.role ≡ false
    → Without b'/' (rt.lower u.username)
    → Without b'/' (rt.lower v.username)
    → (check_api_permission rt u path).0 ≡ true
    → (check_api_permission rt v path).0 ≡ true
    → rt.lower u.username ≡ rt.lower v.username
check_api_permission-IsExclusive rt u v path hu hv wu wv eu ev =
    let (r, slash_r, same_r) = matches_rest rt path u.username (matches_of_check rt u path hu eu) in
    let (s, slash_s, same_s) = matches_rest rt path v.username (matches_of_check rt v path hv ev) in
    first_segment_unique (rt.lower u.username) (rt.lower v.username) r s wu wv slash_r slash_s
      (tail_inj (sym same_r ∙ same_s))
