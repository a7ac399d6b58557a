-- ===== src/Pii/Rules/Laws.antt =====
-- What the transformers let through.
use mathlib.Core.List.{append-nil}
use data_api.Prelude.{
  ℕ, ◌+◌, ◌≡◌, ◌<◌, ◌⊎◌, inl, inr, refl, some, [], ◌∷◌, ◌++◌, arith, ◌==◌, length, take, drop,
  take-append_of_length, drop-append_of_length, length-append, Bool-cases, Option-cases,
}
use data_api.Text.{Text}
use data_api.Dict.{Dict, get}
use data_api.Pii.Rules.{with_suffix, transform_token, transform_by_token_length}
use data_api.Value.{Value, null, str, Runtime, to_str}

-- The value is null, or the mapped value of some token of the cache with at most one more
-- character.
abbrev pub IsMapped : Dict Text → Value → Type 0
IsMapped cache v =
    (v ≡ null)
    ⊎ ((token : Text) × (mapped : Text) × (suffix : Text) × (length token ≡ 32)
        × (get cache token ≡ some mapped)
        × (length suffix < 2)
        × (v ≡ str (mapped ++ suffix)))

length-take_le :
    (n : ℕ) (s : Text) → length s ≡ n + 1 → (length (take n s) ≡ n) × (length (drop n s) ≡ 1)
length-take_le ℕ.zero s h = (refl, omega arith)
length-take_le (ℕ.suc n) [] h = absurd (omega arith)
length-take_le (ℕ.suc n) (c ∷ s) h =
    let (t, d) = length-take_le n s (omega arith) in (omega arith, d)

with_suffix-IsMapped :
    (cache : Dict Text) (token suffix : Text)
    → length token ≡ 32
    → length suffix < 2
    → IsMapped cache (with_suffix (get cache token) suffix)
with_suffix-IsMapped cache token suffix h k = elim (Option-cases (get cache token)) [
  | inl e ↦ rw e (inl refl)
  | inr (m, e) ↦ rw e (inr (token, m, suffix, h, e, k, refl))
]

transform_token-IsMapped :
    (token : Text) (cache : Dict Text) → IsMapped cache (transform_token token cache)
unfolding transform_token
transform_token-IsMapped token cache = elim (Bool-cases (length token == 32)) [
  | inl e ↦ rw e (with_suffix-IsMapped cache token [] (ground arith) (omega arith))
  | inr e ↦ rw e (elim (Bool-cases (length token == 33)) [
    | inl f ↦
        let (t, d) = length-take_le 32 token (ground arith) in
        rw f (with_suffix-IsMapped cache (take 32 token) (drop 32 token) t (omega arith))
    | inr f ↦ rw f (inl refl)
  ])
]

length_is :
    (n : ℕ) (token suffix : Text) → length token + length suffix ≡ n → length (token ++ suffix) ≡ n
length_is n token suffix h = omega (arith, length-append token suffix)

-- Whatever the value, the token rule returns null or a mapped value of the cache with at most one
-- more character.
pub transform_by_token_length-IsMapped :
    (rt : Runtime) (value : Value) (cache : Dict Text)
    → IsMapped cache (transform_by_token_length rt value cache)
unfolding transform_by_token_length
transform_by_token_length-IsMapped rt null cache = inl refl
transform_by_token_length-IsMapped rt value cache = transform_token-IsMapped (to_str rt value) cache

-- A token of 32 characters is replaced by its mapped value, and one with a character more behind it
-- by the mapped value with that character; null where the cache has no mapping.
pub transform_by_token_length-str :
    (rt : Runtime) (token suffix : Text) (cache : Dict Text)
    → length token ≡ 32
    → length suffix < 2
    → transform_by_token_length rt (str (token ++ suffix)) cache
      ≡ with_suffix (get cache token) suffix
unfolding transform_by_token_length transform_token
transform_by_token_length-str rt token [] cache h k =
    rw (length_is 32 token [] (omega arith)) (rw append-nil refl)
transform_by_token_length-str rt token (c ∷ []) cache h k =
    rw (length_is 33 token (c ∷ []) (omega arith)) (
      rw (take-append_of_length 32 token (c ∷ []) h)
        (rw (drop-append_of_length 32 token (c ∷ []) h) refl))
transform_by_token_length-str rt token (c ∷ d ∷ s) cache h k = absurd (omega arith)
