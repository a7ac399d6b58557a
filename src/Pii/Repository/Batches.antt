-- ===== src/Pii/Repository/Batches.antt =====
-- What `_batches` yields: the values, in order, cut into batches of bounded size.
use mathlib.Core.List.{append_assoc}
use data_api.Prelude.{
  ℕ, ◌≡◌, ◌<◌, ◌≤◌, refl, false, List, [], ◌∷◌, ◌++◌, All, arith, length, length-append, ◌==◌,
  Bool-cases, inl, inr, ◌∙◌,
}
use data_api.Text.{Text}
use data_api.Pii.Repository.{fill, batches}

abbrev pub IsBatch : ℕ → List Text → Type 0
IsBatch size b = (0 < length b) × (length b ≤ size)

abbrev pub concat : List (List Text) → List Text
concat [] = []
concat (b ∷ bs) = b ++ concat bs

concat-fill :
    (size : ℕ) (batch values : List Text) → concat (fill size batch values) ≡ batch ++ values
unfolding fill
concat-fill size [] [] = refl
concat-fill size (b ∷ batch) [] = refl
concat-fill size batch (v ∷ values) = elim (Bool-cases (length (batch ++ v ∷ []) == size)) [
  | inl full ↦ rw full (rw (concat-fill size [] values) (append_assoc batch (v ∷ []) values))
  | inr more ↦
      rw more (concat-fill size (batch ++ v ∷ []) values ∙ append_assoc batch (v ∷ []) values)
]

fill-IsBatch :
    (size : ℕ) (batch values : List Text)
    → 0 < size
    → length batch < size
    → All (IsBatch size) (fill size batch values)
unfolding fill
fill-IsBatch size [] [] pos h = tt
fill-IsBatch size (b ∷ batch) [] pos h = omega arith
fill-IsBatch size batch (v ∷ values) pos h = elim (Bool-cases (length (batch ++ v ∷ []) == size)) [
  | inl full ↦ rw full (
    (omega (arith, length-append batch (v ∷ [])), ground arith),
    fill-IsBatch size [] values pos pos,
  )
  | inr more ↦ rw more (fill-IsBatch size (batch ++ v ∷ []) values pos (short more))
]
  where
    short : (length (batch ++ v ∷ []) == size) ≡ false → length (batch ++ v ∷ []) < size
    short more = ground (arith, length-append batch (v ∷ []))

-- With a positive size the batches hold the values in their order, and each batch holds at least
-- one value and at most `size`.
pub batches_partition :
    (values : List Text) (size : ℕ)
    → 0 < size
    → (concat (batches values size) ≡ values) × All (IsBatch size) (batches values size)
unfolding batches
batches_partition values size pos =
    (concat-fill size [] values, fill-IsBatch size [] values pos pos)
