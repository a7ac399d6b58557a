-- ===== src/Session.antt =====
-- Code that runs in a database session: it acts on a state, and may raise. The state is what the
-- session sees and what is committed, in a type that each part of the program defines.
use data_api.Prelude.{Bool, true, false, Option, none, some, List, [], ◌∷◌}
use data_api.Errors.{Exc, unexpected, Result, ok, err}

abbrev pub M : Type 0 → Type 0 → Type 0
M S A = S → Result A × S

module _ {S A B : Type 0} where
  abbrev pub continue : Result A → (A → M S B) → M S B
  continue (ok a) f w = f a w
  continue (err e) f w = (err e, w)

  infixl 5 ◌>>=◌ ◌>>◌
  abbrev pub ◌>>=◌ : M S A → (A → M S B) → M S B
  ◌>>=◌ m f w = let (r, w') = m w in continue r f w'

  abbrev pub ◌>>◌ : M S A → M S B → M S B
  m >> n = m >>= λ _. n

module _ {S : Type 0} where
  abbrev pub pure : {A : Type 0} → A → M S A
  pure a w = (ok a, w)

  abbrev pub lift : {A : Type 0} → Result A → M S A
  lift r w = (r, w)

  -- `if bad: raise e`
  abbrev pub raise_if : Bool → Exc → M S (Unit {0})
  raise_if true e w = (err e, w)
  raise_if false e w = (ok tt, w)

-- result.scalar_one_or_none()
unfoldable pub scalar_one_or_none : {A : Type 0} → List A → Result (Option A)
scalar_one_or_none [] = ok none
scalar_one_or_none (r ∷ []) = ok (some r)
scalar_one_or_none (r ∷ s ∷ rs) = err unexpected
