-- ===== src/Text/Sort.antt =====
-- `sorted` over a set of texts.
use data_api.Prelude.{
  ◌≡◌, refl, Bool, true, false, ◌&&◌, ◌||◌, List, [], ◌∷◌, arith, ltb, ◌==◌, if◌then◌else◌,
}
use data_api.Text.{Text, eq_text, eq_text_iff}

-- s < t
unfoldable pub lt_text : Text → Text → Bool
lt_text s [] = false
lt_text [] (b ∷ t) = true
lt_text (a ∷ s) (b ∷ t) = ltb a b || (a == b && lt_text s t)

-- x in xs
unfoldable pub elem : Text → List Text → Bool
elem x [] = false
elem x (y ∷ ys) = eq_text y x || elem x ys

unfoldable pub insert_sorted : Text → List Text → List Text
insert_sorted x [] = x ∷ []
insert_sorted x (y ∷ ys) =
    if eq_text y x then y ∷ ys else if lt_text x y then x ∷ y ∷ ys else y ∷ insert_sorted x ys

-- sorted(set(xs))
unfoldable pub sorted_set : List Text → List Text
unfolding insert_sorted lt_text
sorted_set [] = []
sorted_set (x ∷ xs) = insert_sorted x (sorted_set xs)

elem-insert_sorted :
    (t x : Text) (xs : List Text) → elem t (insert_sorted x xs) ≡ (eq_text x t || elem t xs)
unfolding insert_sorted elem
elem-insert_sorted t x [] = refl
elem-insert_sorted t x (y ∷ ys) =
    ground (arith, elem-insert_sorted t x ys, eq_text_iff y x, eq_text_iff y t, eq_text_iff x t)

-- Sorting keeps the members.
pub elem-sorted_set : (t : Text) (xs : List Text) → elem t (sorted_set xs) ≡ elem t xs
unfolding sorted_set elem
elem-sorted_set t [] = refl
elem-sorted_set t (x ∷ xs) =
    ground (arith, elem-insert_sorted t x (sorted_set xs), elem-sorted_set t xs)
