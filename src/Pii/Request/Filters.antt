-- ===== src/Pii/Request/Filters.antt =====
-- What the values of a filter are.
use mathlib.Core.Path.{subst}
use data_api.Prelude.{
  ◌==◌, ltb, ◌≤◌, Bool, true, false, not, Bool-cases, inl, inr, List, [], ◌∷◌, ◌++◌, map, keep,
  is_empty, All, ◌≡◌, refl, ap, ◌∙◌, arith,
}
use data_api.Text.{Text, split, strip}
use data_api.Errors.{value_error, Result, ok, err, raise_if, >>=-eq-ok}
use data_api.Pii.Request.{
  as_validation_error, filter_items, split_filter_values, normalize_filter_values, RequestData,
  is_below_one, check_request, validate_request,
}
use data_api.Pii.Services.{DeeplinkRequest}
use data_api.Text.Laws.{
  Without, IsStripped, All-strip, strip-IsStripped, strip_of_IsStripped, split-Without,
  split_of_Without,
}
use data_api.Value.{
  object, datetime, date, float, int, bool, to_values, Value, null, str, list, of_values,
}

-- No comma, no space at either end, not empty.
abbrev pub IsFilter : Text → Type 0
IsFilter s = Without b',' s × IsStripped s × (is_empty s ≡ false)

All-append : (xs ys : List Text) → All IsFilter xs → All IsFilter ys → All IsFilter (xs ++ ys)
All-append [] ys h k = k
All-append (x ∷ xs) ys (h, hs) k = (h, All-append xs ys hs k)

kept-IsFilter :
    (ps : List Text)
    → All (Without b',') ps
    → All IsFilter (keep (λ p. not (is_empty p)) (map strip ps))
kept-IsFilter [] h = tt
kept-IsFilter (p ∷ ps) (h, hs) = elim (Bool-cases (is_empty (strip p))) [
  | inl e ↦ rw e (kept-IsFilter ps hs)
  | inr e ↦
      rw e ((All-strip (λ c. (c == b',') ≡ false) p h, strip-IsStripped p, e), kept-IsFilter ps hs)
]

split_filter_values-AreFilters :
    (vs : List Value) (ts : List Text) → split_filter_values vs ≡ ok ts → All IsFilter ts
unfolding split_filter_values filter_items
split_filter_values-AreFilters [] ts h =
    let same : [] ≡ ts = ground (arith, h) in subst (All IsFilter) same tt
split_filter_values-AreFilters (str v ∷ vs) ts h =
    let (normalized, made, e) = >>=-eq-ok (split_filter_values vs) _ h in
    let same : filter_items v ++ normalized ≡ ts = ground (arith, e) in
    subst (All IsFilter) same (
      All-append (filter_items v) normalized (kept-IsFilter (split b',' v) (split-Without b',' v))
        (split_filter_values-AreFilters vs normalized made))
split_filter_values-AreFilters (null ∷ vs) ts h = cc
split_filter_values-AreFilters (bool b ∷ vs) ts h = cc
split_filter_values-AreFilters (int z ∷ vs) ts h = cc
split_filter_values-AreFilters (float f ∷ vs) ts h = cc
split_filter_values-AreFilters (date d ∷ vs) ts h = cc
split_filter_values-AreFilters (datetime d ∷ vs) ts h = cc
split_filter_values-AreFilters (list xs ∷ vs) ts h = cc
split_filter_values-AreFilters (object n ∷ vs) ts h = cc

normalize_filter_values-AreFilters :
    (v : Value) (ts : List Text) → normalize_filter_values v ≡ ok ts → All IsFilter ts
unfolding normalize_filter_values
normalize_filter_values-AreFilters null ts h =
    let same : [] ≡ ts = ground (arith, h) in subst (All IsFilter) same tt
normalize_filter_values-AreFilters (str v) ts h = split_filter_values-AreFilters (str v ∷ []) ts h
normalize_filter_values-AreFilters (list xs) ts h =
    split_filter_values-AreFilters (of_values xs) ts h
normalize_filter_values-AreFilters (bool b) ts h = cc
normalize_filter_values-AreFilters (int z) ts h = cc
normalize_filter_values-AreFilters (float f) ts h = cc
normalize_filter_values-AreFilters (date d) ts h = cc
normalize_filter_values-AreFilters (datetime d) ts h = cc
normalize_filter_values-AreFilters (object n) ts h = cc

-- Values that have been normalized are normalized to themselves.
filter_items_of_IsFilter : (s : Text) → IsFilter s → filter_items s ≡ s ∷ []
unfolding filter_items
filter_items_of_IsFilter s (without, stripped, non_empty) =
    rw (split_of_Without b',' s without, strip_of_IsStripped s stripped, non_empty) refl

split_filter_values_idem :
    (ts : List Text) → All IsFilter ts → split_filter_values (map str ts) ≡ ok ts
unfolding split_filter_values
split_filter_values_idem [] h = refl
split_filter_values_idem (t ∷ ts) (h, hs) =
    rw (split_filter_values_idem ts hs, filter_items_of_IsFilter t h) refl

of_to_values : (vs : List Value) → of_values (to_values vs) ≡ vs
of_to_values [] = refl
of_to_values (v ∷ vs) = ap (λ us. v ∷ us) (of_to_values vs)

-- The request as the endpoint would be given it again.
abbrev pub again : DeeplinkRequest → RequestData
again r = record {
  start_date = r.start_date;
  end_date = r.end_date;
  limit = r.limit;
  segmentation = list (to_values (map str r.segmentation_filters));
  user_agent = list (to_values (map str r.user_agent_filters));
  customer_id = list (to_values (map str r.customer_ids));
}

normalize_again :
    (ts : List Text)
    → All IsFilter ts
    → normalize_filter_values (list (to_values (map str ts))) ≡ ok ts
unfolding normalize_filter_values
normalize_again ts h =
    ap split_filter_values (of_to_values (map str ts)) ∙ split_filter_values_idem ts h

as_validation_error-eq-ok :
    {A : Type 0} (r : Result A) (a : A) → as_validation_error r ≡ ok a → r ≡ ok a
as_validation_error-eq-ok (ok b) a h = h
as_validation_error-eq-ok (err e) a h = cc

abbrev pub IsNormal : DeeplinkRequest → Type 0
IsNormal r =
    (r.start_date ≤ r.end_date)
    × (is_below_one r.limit ≡ false)
    × All IsFilter r.segmentation_filters
    × All IsFilter r.user_agent_filters
    × All IsFilter r.customer_ids
    × (validate_request (again r) ≡ ok r)

validate_again :
    (r : DeeplinkRequest)
    → is_below_one r.limit ≡ false
    → ltb r.end_date r.start_date ≡ false
    → All IsFilter r.segmentation_filters
    → All IsFilter r.user_agent_filters
    → All IsFilter r.customer_ids
    → validate_request (again r) ≡ ok r
unfolding validate_request check_request
validate_again r limit dates s u c =
    rw
      (
        limit,
        normalize_again r.segmentation_filters s,
        normalize_again r.user_agent_filters u,
        normalize_again r.customer_ids c,
        dates,
      )
      refl

abbrev request_of : DeeplinkRequest → Result DeeplinkRequest → DeeplinkRequest
request_of r (ok made) = made
request_of r (err e) = r

not_raised : (b : Bool) (x : Unit {0}) → raise_if b value_error ≡ ok x → b ≡ false
not_raised false x h = refl
not_raised true x h = cc

-- A request that is accepted has its dates in order, a limit of one or more where it has one, and filters
-- that are not empty, with no comma and no space at either end; and it is accepted again as it is.
pub validate_request-IsNormal :
    (raw : RequestData) (r : DeeplinkRequest) → validate_request raw ≡ ok r → IsNormal r
unfolding validate_request check_request
validate_request-IsNormal raw r h =
    let h0 = as_validation_error-eq-ok (check_request raw) r h in
    let (x, limit, h1) = >>=-eq-ok (raise_if (is_below_one raw.limit) value_error) _ h0 in
    let (s, made_s, h2) = >>=-eq-ok (normalize_filter_values raw.segmentation) _ h1 in
    let (u, made_u, h3) = >>=-eq-ok (normalize_filter_values raw.user_agent) _ h2 in
    let (c, made_c, h4) = >>=-eq-ok (normalize_filter_values raw.customer_id) _ h3 in
    let (y, dates, h5) = >>=-eq-ok (raise_if (ltb raw.end_date raw.start_date) value_error) _ h4 in
    let made : DeeplinkRequest = record {
      start_date = raw.start_date;
      end_date = raw.end_date;
      limit = raw.limit;
      segmentation_filters = s;
      user_agent_filters = u;
      customer_ids = c;
    } in
    let same : made ≡ r = ap (request_of r) h5 in
    let in_order = not_raised (ltb raw.end_date raw.start_date) y dates in
    let at_least = not_raised (is_below_one raw.limit) x limit in
    let fs = normalize_filter_values-AreFilters raw.segmentation s made_s in
    let fu = normalize_filter_values-AreFilters raw.user_agent u made_u in
    let fc = normalize_filter_values-AreFilters raw.customer_id c made_c in
    subst IsNormal same (
      ground (arith, in_order),
      at_least,
      fs,
      fu,
      fc,
      validate_again made at_least in_order fs fu fc,
    )
