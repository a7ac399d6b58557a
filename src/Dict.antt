-- ===== src/Dict.antt =====
-- Python's `dict` with text keys, in the order of insertion.
use data_api.Prelude.{
  true, false, Bool-cases, inl, inr, ◌≡◌, refl, Option, none, some, List, [], ◌∷◌, arith,
  if◌then◌else◌,
}
use data_api.Text.{Text, eq_text, eq_text_iff, eq_text_refl}
use data_api.Text.Sort.{elem}

abbrev pub Dict {ℓ} : Type ℓ → Type ℓ
Dict V = List (Text × V)

module _ {ℓ} {V : Type ℓ} where
  -- d.get(k)
  unfoldable pub get : Dict V → Text → Option V
  get [] k = none
  get ((j, v) ∷ d) k = if eq_text j k then some v else get d k

  -- d[k] = v: an old key keeps its place
  unfoldable pub put : Dict V → Text → V → Dict V
  put [] k v = (k, v) ∷ []
  put ((j, w) ∷ d) k v = if eq_text j k then (j, v) ∷ d else (j, w) ∷ put d k v

  abbrev pub keys : Dict V → List Text
  keys [] = []
  keys ((k, v) ∷ d) = k ∷ keys d

  pub get-put :
      (d : Dict V) (k j : Text) (v : V)
      → get (put d k v) j ≡ (if eq_text k j then some v else get d j)
  unfolding get put
  get-put [] k j v = refl
  get-put ((i, w) ∷ d) k j v =
      ground (arith, eq_text_iff k j, eq_text_iff i k, eq_text_iff i j, get-put d k j v)

  pub get-put_self : (d : Dict V) (k : Text) (v : V) → get (put d k v) k ≡ some v
  get-put_self d k v = simp (get-put, eq_text_refl)

  -- A key that is not among the keys has no value, and a key that is has one.
  pub get_of_not-elem : (d : Dict V) (k : Text) → elem k (keys d) ≡ false → get d k ≡ none
  unfolding get elem
  get_of_not-elem [] k h = refl
  get_of_not-elem ((j, v) ∷ d) k h = ground (arith, get_of_not-elem d k)

  pub get_of_elem : (d : Dict V) (k : Text) → elem k (keys d) ≡ true → (v : V) × (get d k ≡ some v)
  unfolding get elem
  get_of_elem [] k h = cc
  get_of_elem ((j, v) ∷ d) k h = elim (Bool-cases (eq_text j k)) [
    | inl same ↦ rw same (v, refl)
    | inr other ↦ rw other (get_of_elem d k (ground arith))
  ]

  -- No key stands twice, as in every Python dict.
  abbrev pub HasDistinctKeys : Dict V → Type 0
  HasDistinctKeys [] = Unit
  HasDistinctKeys ((k, v) ∷ d) = (elem k (keys d) ≡ false) × HasDistinctKeys d
