-- ===== src/Text/Laws.antt =====
-- Laws of `strip` and `split`.
use data_api.Prelude.{
  ℕ, ◌≡◌, refl, ap, ◌∙◌, Bool, false, List, [], ◌∷◌, ◌++◌, All, ◌==◌, inl, inr, Bool-cases,
}
use data_api.Text.{Text, is_space, lstrip_by, rstrip_by, cons_kept, strip, split, push_head}

-- The text does not begin with a character that passes the test.
abbrev pub NoHead : (ℕ → Bool) → Text → Type 0
NoHead p [] = Unit
NoHead p (c ∷ s) = p c ≡ false

-- The text does not end with a character that passes the test.
abbrev pub NoLast : (ℕ → Bool) → Text → Type 0
NoLast p [] = Unit
NoLast p (c ∷ []) = p c ≡ false
NoLast p (c ∷ d ∷ s) = NoLast p (d ∷ s)

-- No surrounding white space.
abbrev pub IsStripped : Text → Type 0
IsStripped s = NoHead is_space s × NoLast is_space s

module _ (p : ℕ → Bool) where
  lstrip_by-NoHead : (s : Text) → NoHead p (lstrip_by p s)
  unfolding lstrip_by
  lstrip_by-NoHead [] = tt
  lstrip_by-NoHead (c ∷ s) = elim (Bool-cases (p c)) [
    | inl h ↦ rw h (lstrip_by-NoHead s)
    | inr h ↦ rw h h
  ]

  cons_kept-NoLast : (c : ℕ) (r : Text) → NoLast p r → NoLast p (cons_kept p c r)
  cons_kept-NoLast c [] h = elim (Bool-cases (p c)) [ inl e ↦ rw e tt | inr e ↦ rw e e ]
  cons_kept-NoLast c (d ∷ t) h = h

  rstrip_by-NoLast : (s : Text) → NoLast p (rstrip_by p s)
  unfolding rstrip_by
  rstrip_by-NoLast [] = tt
  rstrip_by-NoLast (c ∷ s) = cons_kept-NoLast c (rstrip_by p s) (rstrip_by-NoLast s)

  cons_kept-NoHead : (c : ℕ) (r : Text) → p c ≡ false → NoHead p (cons_kept p c r)
  cons_kept-NoHead c [] h = rw h h
  cons_kept-NoHead c (d ∷ t) h = h

  rstrip_by-NoHead : (s : Text) → NoHead p s → NoHead p (rstrip_by p s)
  unfolding rstrip_by
  rstrip_by-NoHead [] h = tt
  rstrip_by-NoHead (c ∷ s) h = cons_kept-NoHead c (rstrip_by p s) h

  lstrip_by_of_NoHead : (s : Text) → NoHead p s → lstrip_by p s ≡ s
  unfolding lstrip_by
  lstrip_by_of_NoHead [] h = refl
  lstrip_by_of_NoHead (c ∷ s) h = rw h refl

  pub rstrip_by_of_NoLast : (s : Text) → NoLast p s → rstrip_by p s ≡ s
  unfolding rstrip_by
  rstrip_by_of_NoLast [] h = refl
  rstrip_by_of_NoLast (c ∷ []) h = rw h refl
  rstrip_by_of_NoLast (c ∷ d ∷ s) h = ap (cons_kept p c) (rstrip_by_of_NoLast (d ∷ s) h)

pub strip-IsStripped : (s : Text) → IsStripped (strip s)
unfolding strip
strip-IsStripped s = (
  rstrip_by-NoHead is_space (lstrip_by is_space s) (lstrip_by-NoHead is_space s),
  rstrip_by-NoLast is_space (lstrip_by is_space s),
)

pub strip_of_IsStripped : (s : Text) → IsStripped s → strip s ≡ s
unfolding strip
strip_of_IsStripped s (h, k) =
    ap (rstrip_by is_space) (lstrip_by_of_NoHead is_space s h) ∙ rstrip_by_of_NoLast is_space s k

-- The character is not in the text.
abbrev pub Without : ℕ → Text → Type 0
Without sep s = All (λ c. (c == sep) ≡ false) s

module _ (P : ℕ → Type 0) (p : ℕ → Bool) where
  All-lstrip_by : (s : Text) → All P s → All P (lstrip_by p s)
  unfolding lstrip_by
  All-lstrip_by [] h = tt
  All-lstrip_by (c ∷ s) (h, k) = elim (Bool-cases (p c)) [
    | inl e ↦ rw e (All-lstrip_by s k)
    | inr e ↦ rw e (h, k)
  ]

  All-cons_kept : (c : ℕ) (r : Text) → P c → All P r → All P (cons_kept p c r)
  All-cons_kept c [] h k = elim (Bool-cases (p c)) [ inl e ↦ rw e tt | inr e ↦ rw e (h, tt) ]
  All-cons_kept c (d ∷ t) h k = (h, k)

  All-rstrip_by : (s : Text) → All P s → All P (rstrip_by p s)
  unfolding rstrip_by
  All-rstrip_by [] h = tt
  All-rstrip_by (c ∷ s) (h, k) = All-cons_kept c (rstrip_by p s) h (All-rstrip_by s k)

-- Stripping only drops characters.
pub All-strip : (P : ℕ → Type 0) (s : Text) → All P s → All P (strip s)
unfolding strip
All-strip P s h = All-rstrip_by P is_space (lstrip_by is_space s) (All-lstrip_by P is_space s h)

push_head-Without :
    (sep c : ℕ) (ps : List Text)
    → (c == sep) ≡ false
    → All (Without sep) ps
    → All (Without sep) (push_head c ps)
push_head-Without sep c [] h k = ((h, tt), tt)
push_head-Without sep c (p ∷ ps) h (k, ks) = ((h, k), ks)

pub split-Without : (sep : ℕ) (s : Text) → All (Without sep) (split sep s)
unfolding split
split-Without sep [] = (tt, tt)
split-Without sep (c ∷ s) = elim (Bool-cases (c == sep)) [
  | inl h ↦ rw h (tt, split-Without sep s)
  | inr h ↦ rw h (push_head-Without sep c (split sep s) h (split-Without sep s))
]

pub split_of_Without : (sep : ℕ) (s : Text) → Without sep s → split sep s ≡ s ∷ []
unfolding split
split_of_Without sep [] h = refl
split_of_Without sep (c ∷ s) (h, k) = rw h (ap (push_head c) (split_of_Without sep s k))

-- "sep".join(parts)
abbrev pub join : ℕ → List Text → Text
join sep [] = []
join sep (p ∷ []) = p
join sep (p ∷ q ∷ ps) = p ++ sep ∷ join sep (q ∷ ps)
