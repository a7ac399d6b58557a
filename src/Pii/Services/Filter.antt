-- ===== src/Pii/Services/Filter.antt =====
-- What the filter on customers asks the database for.
use data_api.Prelude.{
  none, some, arith, ◌||◌, ◌++◌, Option, ℕ, true, not, ap, inl, inr, refl, [], Bool-cases, ◌∙◌,
  ◌&&◌, ◌∷◌, map, false, any, ◌≡◌, is_empty, Bool, List,
}
use data_api.Text.{codes, eq_text, Text}
use data_api.Dict.{Dict}
use data_api.Pii.AccountMap.{AccountMapInMemory}
use data_api.Pii.Services.{
  status_condition, DeeplinkRequest, deeplink_2_spec, deeplink_1_spec, no_match, matching_tokens,
  or_no_match, get_tokens_by_original_values, Condition, account_id_in, filter_condition,
  build_power_bi_deeplink_query,
}
use data_api.Text.Sort.{elem}
use data_api.Value.{Runtime}

-- A pair of the cache makes the token match: its value is one of the values, up to case.
abbrev pub matches : Runtime → List Text → Text → Text × Text → Bool
matches rt values t p = elem (rt.casefold p.0) (map rt.casefold values) && eq_text p.1 t

elem-matching_tokens :
    (rt : Runtime) (lower : List Text) (cache : Dict Text) (t : Text)
    → elem t (matching_tokens rt lower cache)
      ≡ any (λ p. elem (rt.casefold p.0) lower && eq_text p.1 t) cache
unfolding matching_tokens
elem-matching_tokens rt lower [] t = unfold elem in refl
elem-matching_tokens rt lower ((v, token) ∷ cache) t =
    elim (Bool-cases (elem (rt.casefold v) lower)) [
      | inl h ↦
          rw h
            (unfold elem in ap (λ b. eq_text token t || b) (elem-matching_tokens rt lower cache t))
      | inr h ↦ rw h (elem-matching_tokens rt lower cache t)
    ]

is_empty-or_no_match : (ts : List Text) → is_empty (or_no_match ts) ≡ false
is_empty-or_no_match [] = refl
is_empty-or_no_match (t ∷ ts) = refl

elem-or_no_match :
    (ts : List Text) (t : Text) → eq_text no_match t ≡ false → elem t (or_no_match ts) ≡ elem t ts
elem-or_no_match [] t h = unfold elem in rw h refl
elem-or_no_match (u ∷ ts) t h = refl

-- For values to look up, the filter is never empty, so that it is never dropped from the query; and
-- a token, other than the text that stands for no match, is in it exactly when the map gives the
-- token for a value that is one of these up to case.
pub get_tokens_by_original_values_lem :
    (rt : Runtime) (cache : AccountMapInMemory) (values : List Text)
    → is_empty values ≡ false
    → (is_empty (get_tokens_by_original_values rt cache values) ≡ false)
      × ((t : Text)
          → eq_text no_match t ≡ false
          → elem t (get_tokens_by_original_values rt cache values)
            ≡ any (matches rt values t) cache.value_to_token)
unfolding get_tokens_by_original_values
get_tokens_by_original_values_lem rt cache values full = rw full (
  is_empty-or_no_match (matching_tokens rt (map rt.casefold values) cache.value_to_token),
  λ t h.
      elem-or_no_match (matching_tokens rt (map rt.casefold values) cache.value_to_token) t h
      ∙ elem-matching_tokens rt (map rt.casefold values) cache.value_to_token t,
)

-- A condition that keeps only rows of some accounts.
abbrev pub restricts : Condition → Bool
restricts (account_id_in ids) = not (is_empty ids)
restricts _ = false

any-append_of_any :
    (xs ys : List Condition) → any restricts ys ≡ true → any restricts (xs ++ ys) ≡ true
any-append_of_any [] ys h = h
any-append_of_any (x ∷ xs) ys h = ground (arith, any-append_of_any xs ys h)

restricts-filter_condition :
    (ids : List Text)
    → is_empty ids ≡ false
    → any restricts (filter_condition account_id_in ids) ≡ true
restricts-filter_condition [] h = cc
restricts-filter_condition (i ∷ ids) h = refl

restricts_lem :
    (rt : Runtime) (event_key : Text) (start_date end_date : ℕ)
    (segmentation user_agent ids : List Text) (limit : Option ℕ) (status : Option Text)
    → is_empty ids ≡ false
    → any restricts
        (build_power_bi_deeplink_query rt event_key start_date end_date segmentation user_agent ids
          limit status).conditions
      ≡ true
unfolding build_power_bi_deeplink_query
restricts_lem rt event_key start_date end_date segmentation user_agent ids limit status h =
    any-append_of_any (status_condition status) _ (
      any-append_of_any (filter_condition Condition.bank_name_in (map rt.casefold segmentation)) _ (
        any-append_of_any (filter_condition Condition.device_in (map rt.casefold user_agent)) _
          (restricts-filter_condition ids h)))

-- Where customers are asked for, whatever the map holds, both deeplink queries are restricted to a
-- list of accounts that is not empty.
pub deeplink_spec-restricts :
    (rt : Runtime) (cache : AccountMapInMemory) (r : DeeplinkRequest)
    → is_empty r.customer_ids ≡ false
    → (any restricts (deeplink_1_spec rt cache r).statement.conditions ≡ true)
      × (any restricts (deeplink_2_spec rt cache r).statement.conditions ≡ true)
unfolding deeplink_1_spec deeplink_2_spec
deeplink_spec-restricts rt cache r full =
    let (some_token, found) = get_tokens_by_original_values_lem rt cache r.customer_ids full in
    (
      restricts_lem rt (codes "topup_result") r.start_date r.end_date r.segmentation_filters
          r.user_agent_filters (get_tokens_by_original_values rt cache r.customer_ids) r.limit
          (some (codes "processing")) some_token,
      restricts_lem rt (codes "topup_bank_app") r.start_date r.end_date r.segmentation_filters
          r.user_agent_filters (get_tokens_by_original_values rt cache r.customer_ids) r.limit none
          some_token,
    )
