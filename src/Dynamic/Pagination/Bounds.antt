-- ===== src/Dynamic/Pagination/Bounds.antt =====
-- The page that a request asks for.
use mathlib.Core.Path.{subst}
use data_api.Prelude.{
  All, ℕ, ◌+◌, ◌-◌, ◌*◌, ◌/◌, ◌≡◌, ◌≤◌, ◌<◌, refl, Bool, false, not, Option, none, some, List, [],
  ◌∷◌, arith, is_empty, Bool-cases, inl, inr, keep,
}
use data_api.Prelude.Int.{pos}
use data_api.Text.{Text, codes}
use data_api.Dynamic.Pagination.{
  or_invalid, paginated, within, is_digit_text, int_of_digit_text, pagination_value,
  parse_pagination_value, extract_pagination, Extracted, is_page_key, total_pages,
}
use data_api.Dynamic.Parameters.Values.{QueryParams, getlist}
use data_api.Errors.{ok, >>=-eq-ok}
use data_api.Value.{Runtime}

ok_injective : {a b : ℕ} → ok a ≡ ok b → a ≡ b
ok_injective e = cc

abbrev IsAtMost : ℕ → Option ℕ → Type 0
IsAtMost n none = Unit
IsAtMost n (some m) = n ≤ m

within_bounds :
    (maximum o : Option ℕ) (n : ℕ) → within maximum o ≡ some n → (1 ≤ n) × IsAtMost n maximum
within_bounds maximum none n e = cc
within_bounds none (some v) n e = (ground arith, tt)
within_bounds (some m) (some v) n e = (ground arith, ground arith)

pagination_value_bounds :
    (rt : Runtime) (maximum : Option ℕ) (values : List Text) (n : ℕ)
    → pagination_value rt maximum values ≡ some n
    → (1 ≤ n) × IsAtMost n maximum
unfolding pagination_value
pagination_value_bounds rt maximum [] n e = cc
pagination_value_bounds rt maximum (v ∷ w ∷ vs) n e = cc
pagination_value_bounds rt maximum (v ∷ []) n e = elim (Bool-cases (is_digit_text rt v)) [
  | inl h ↦ within_bounds maximum (int_of_digit_text rt v) n (rw h at e)
  | inr h ↦ absurd (ground (arith, h, e))
]

or_invalid-eq-ok : (name : Text) (o : Option ℕ) (n : ℕ) → or_invalid name o ≡ ok n → o ≡ some n
or_invalid-eq-ok name none n e = cc
or_invalid-eq-ok name (some m) n e = cc

parse_pagination_value_bounds :
    (rt : Runtime) (raw : QueryParams) (name : Text) (default : ℕ) (maximum : Option ℕ) (n : ℕ)
    → 1 ≤ default
    → IsAtMost default maximum
    → parse_pagination_value rt raw name default maximum ≡ ok n
    → (1 ≤ n) × IsAtMost n maximum
unfolding parse_pagination_value
parse_pagination_value_bounds rt raw name default maximum n low high e =
    elim (Bool-cases (is_empty (getlist raw name))) [
      | inl h ↦ subst (λ k. (1 ≤ k) × IsAtMost k maximum) (ok_injective (rw h at e)) (low, high)
      | inr h ↦
          pagination_value_bounds rt maximum (getlist raw name) n
            (or_invalid-eq-ok name (pagination_value rt maximum (getlist raw name)) n (rw h at e))
    ]

-- The page is at least 1, the page size lies between 1 and 1000, and neither is left among the
-- parameters of the query.
pub record IsPage (x : Extracted) : Type 0 where
  pub page : ℕ
  pub page_size : ℕ
  pub extracted : x.page_and_size ≡ some (page, page_size)
  pub page_pos : 1 ≤ page
  pub size_pos : 1 ≤ page_size
  pub size_max : page_size ≤ 1000
  pub left : All (λ item. is_page_key item.0 ≡ false) x.query_params

extracted_injective : {a b : Extracted} → ok a ≡ ok b → a ≡ b
extracted_injective e = cc

All-keep :
    (p : Text × Text → Bool) (items : QueryParams)
    → All (λ item. p item ≡ false) (keep (λ item. not (p item)) items)
All-keep p [] = tt
All-keep p (item ∷ items) = elim (Bool-cases (p item)) [
  | inl h ↦ rw h (All-keep p items)
  | inr h ↦ rw h (h, All-keep p items)
]

-- Whatever the query string of a paginated route, a page that is accepted is at least 1 and its
-- size between 1 and 1000, and the two parameters do not reach the query.
pub extract_pagination-IsPage :
    (rt : Runtime) (raw : QueryParams) (x : Extracted)
    → extract_pagination rt raw paginated ≡ ok x
    → IsPage x
unfolding extract_pagination
extract_pagination-IsPage rt raw x e =
    let (page, parsed, e1) = >>=-eq-ok (parse_pagination_value rt raw (codes "page") 1 none) _ e in
    let (page_size, parsed_size, e2) =
      >>=-eq-ok (parse_pagination_value rt raw (codes "page_size") 100 (some 1000)) _ e1 in
    let (low, t) =
      parse_pagination_value_bounds rt raw (codes "page") 1 none page (omega arith) tt parsed in
    let (size_low, size_high) =
      parse_pagination_value_bounds rt raw (codes "page_size") 100 (some 1000) page_size
        (omega arith) (omega arith) parsed_size in
    record {
      page = page;
      page_size = page_size;
      extracted = ground (arith, e2);
      page_pos = low;
      size_pos = size_low;
      size_max = size_high;
      left =
          subst (λ (y : Extracted). All (λ item. is_page_key item.0 ≡ false) y.query_params)
            (extracted_injective e2) (All-keep (λ item. is_page_key item.0) raw);
    }

-- For a positive page size and a total that is not negative, the number of pages is the least that
-- holds every row: the pages hold all, with less than a page to spare.
pub total_pages_least :
    (total page_size : ℕ)
    → 1 ≤ page_size
    → (n : ℕ) × (total_pages (pos total) page_size ≡ pos n)
      × (total ≤ n * page_size)
      × (n * page_size < total + page_size)
unfolding total_pages
total_pages_least total page_size h =
    ((total + page_size - 1) / page_size, refl, grind arith, grind arith)
