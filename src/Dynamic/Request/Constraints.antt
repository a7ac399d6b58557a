-- ===== src/Dynamic/Request/Constraints.antt =====
-- What an accepted request is, against the check constraints of app/models/dynamic_route.py.
use mathlib.Core.Path.{subst}
use data_api.Prelude.{
  ◌∙◌, sym, not, ap, all, ◌||◌, ◌&&◌, inr, inl, arith, ◌==◌, ◌≤◌, length, refl, Bool-cases, true,
  false, [], ◌≡◌, is_empty, any, Bool, ◌∷◌, ℕ, List,
}
use data_api.Text.{ends_with, codes, starts_with, push_head, split, Text}
use data_api.Dict.{keys}
use data_api.Dynamic.Names.{is_parameter_name}
use data_api.Dynamic.Pagination.{ResponseType, rows_only, paginated}
use data_api.Dynamic.Request.{
  is_prefix_char, reserved_prefixes, pagination_parameters, has_length, normalize_prefix,
  validate_prefix, is_invalid_segment, validate_path, validate_parameter_names,
  validate_paginated_parameter_names, definitions_valid, is_ok, fields_valid,
  validate_write_request,
}
use data_api.Dynamic.Routes.{WriteRequest}
use data_api.Errors.{ok, >>=-eq-ok}
use data_api.Text.Sort.{elem}
use data_api.Value.{Runtime}

-- `position('//' in path)` is not 0
abbrev pub has_double_slash : Text → Bool
has_double_slash [] = false
has_double_slash (a ∷ []) = false
has_double_slash (a ∷ b ∷ s) = (a == b'/' && b == b'/') || has_double_slash (b ∷ s)

-- The constraints of the table on the path, and that it leads nowhere but down.
pub record IsPath (path : Text) : Type 0 where
  pub not_empty : is_empty path ≡ false
  pub not_rooted : starts_with path (codes "/") ≡ false
  pub not_open : ends_with path (codes "/") ≡ false
  pub single_slashes : has_double_slash path ≡ false
  pub segments : any is_invalid_segment (split b'/' path) ≡ false
  pub max_length : length path ≤ 500

abbrev tail_of : List Text → List Text
tail_of [] = []
tail_of (x ∷ xs) = xs

tail_of-push_head : (c : ℕ) (ps : List Text) → tail_of (push_head c ps) ≡ tail_of ps
tail_of-push_head c [] = refl
tail_of-push_head c (p ∷ ps) = refl

split_slash : (c : ℕ) (s : Text) → (c == b'/') ≡ true → split b'/' (c ∷ s) ≡ [] ∷ split b'/' s
unfolding split
split_slash c s h = rw h refl

split_other :
    (c : ℕ) (s : Text) → (c == b'/') ≡ false → split b'/' (c ∷ s) ≡ push_head c (split b'/' s)
unfolding split
split_other c s h = rw h refl

any-tail_of :
    (ps : List Text)
    → any is_invalid_segment ps ≡ false
    → any is_invalid_segment (tail_of ps) ≡ false
any-tail_of [] h = refl
any-tail_of (p ∷ ps) h = ground (arith, h)

-- A text whose segments behind the first are not empty has no two slashes in a row.
has_double_slash_of_segments :
    (s : Text)
    → any is_invalid_segment (tail_of (split b'/' s)) ≡ false
    → has_double_slash s ≡ false
has_double_slash_of_segments [] h = refl
has_double_slash_of_segments (a ∷ []) h = refl
has_double_slash_of_segments (a ∷ b ∷ s) h = elim (Bool-cases (a == b'/')) [
  | inl x ↦
      let here : any is_invalid_segment (split b'/' (b ∷ s)) ≡ false = after_slash x in
      elim (Bool-cases (b == b'/')) [
        | inl y ↦ absurd (no_empty_head y here)
        | inr y ↦
            rw y
              (rw x (has_double_slash_of_segments (b ∷ s) (any-tail_of (split b'/' (b ∷ s)) here)))
      ]
  | inr x ↦ rw x (has_double_slash_of_segments (b ∷ s) (inside x))
]
  where
    after_slash : (a == b'/') ≡ true → any is_invalid_segment (split b'/' (b ∷ s)) ≡ false
    after_slash x = rw (split_slash a (b ∷ s) x) at h

    no_empty_head : (b == b'/') ≡ true → any is_invalid_segment (split b'/' (b ∷ s)) ≡ false → ⊥
    no_empty_head y here = let bad : true ≡ false = rw (split_slash b s y) at here in cc

    inside : (a == b'/') ≡ false → any is_invalid_segment (tail_of (split b'/' (b ∷ s))) ≡ false
    inside x =
        ap (any is_invalid_segment) (sym (tail_of-push_head a (split b'/' (b ∷ s))))
        ∙ ap (λ ps. any is_invalid_segment (tail_of ps)) (sym (split_other a (b ∷ s) x))
        ∙ h

is_empty_of_has_length : (s : Text) → has_length 1 500 s ≡ true → is_empty s ≡ false
is_empty_of_has_length [] h = cc
is_empty_of_has_length (c ∷ s) h = refl

validate_path-IsPath :
    (path : Text) → has_length 1 500 path ≡ true → is_ok (validate_path path) ≡ true → IsPath path
unfolding validate_path
validate_path-IsPath path l h = record {
  not_empty = is_empty_of_has_length path l;
  not_rooted = ground (arith, h);
  not_open = ground (arith, h);
  single_slashes = has_double_slash_of_segments path (any-tail_of (split b'/' path) segments_valid);
  segments = segments_valid;
  max_length = ground (arith, l);
}
  where
    segments_valid : any is_invalid_segment (split b'/' path) ≡ false
    segments_valid = ground (arith, h)

-- The prefix: between 3 and 50 characters out of letters, digits, `_`, `.` and `-`, and not reserved.
pub record IsPrefix (prefix : Text) : Type 0 where
  pub min_length : 3 ≤ length prefix
  pub max_length : length prefix ≤ 50
  pub characters : all is_prefix_char prefix ≡ true
  pub not_reserved : elem prefix reserved_prefixes ≡ false

validate_prefix-IsPrefix :
    (prefix : Text)
    → has_length 3 50 prefix ≡ true
    → is_ok (validate_prefix prefix) ≡ true
    → IsPrefix prefix
unfolding validate_prefix
validate_prefix-IsPrefix prefix l h = record {
  min_length = ground (arith, l);
  max_length = ground (arith, l);
  characters = ground (arith, h);
  not_reserved = ground (arith, h);
}

-- The request: its prefix is normalized and allowed, its path is one that the table takes; its SQL is
-- not empty; its parameters are ASCII identifiers, and where the response is paginated none of them is a
-- parameter of the pagination.
pub record IsAcceptable (rt : Runtime) (payload r : WriteRequest) : Type 0 where
  pub normalized : r ≡ record payload { prefix = normalize_prefix rt payload.prefix }
  pub is_prefix : IsPrefix r.prefix
  pub is_path : IsPath r.path
  pub has_sql : is_empty r.sql ≡ false
  pub identifiers : any (λ name. not (is_parameter_name name)) (keys r.params) ≡ false
  pub not_pagination :
      r.response_type ≡ paginated
      → any (λ name. elem name (keys r.params)) pagination_parameters ≡ false

no_pagination_parameter :
    (r : WriteRequest) (t : ResponseType)
    → r.response_type ≡ t
    → is_ok (validate_paginated_parameter_names r) ≡ true
    → t ≡ paginated
    → any (λ name. elem name (keys r.params)) pagination_parameters ≡ false
unfolding validate_paginated_parameter_names
no_pagination_parameter r paginated same h e = ground (arith, same, h)
no_pagination_parameter r rows_only same h e = cc

IsAcceptable-of_valid :
    (rt : Runtime) (payload r : WriteRequest)
    → r ≡ record payload { prefix = normalize_prefix rt payload.prefix }
    → fields_valid r ≡ true
    → is_ok (validate_paginated_parameter_names r) ≡ true
    → IsAcceptable rt payload r
unfolding fields_valid validate_parameter_names
IsAcceptable-of_valid rt payload r same f g = record {
  normalized = same;
  is_prefix = validate_prefix-IsPrefix r.prefix (ground (arith, f)) (ground (arith, f));
  is_path = validate_path-IsPath r.path (ground (arith, f)) (ground (arith, f));
  has_sql = ground (arith, f);
  identifiers = ground (arith, f);
  not_pagination = no_pagination_parameter r r.response_type refl g;
}

-- A request that is accepted comes back with its prefix stripped and lowered, and otherwise as it was;
-- its prefix has 3 to 50 characters out of ASCII letters, digits, `_`, `.` and `-` and is not reserved;
-- its path meets the constraints of the table on it and has no empty, `.` or `..` segment; its SQL is
-- not empty; and its parameters are ASCII identifiers, none of the pagination's if it is paginated.
pub validate_write_request-IsAcceptable :
    (rt : Runtime) (payload r : WriteRequest)
    → validate_write_request rt payload ≡ ok r
    → IsAcceptable rt payload r
unfolding validate_write_request
validate_write_request-IsAcceptable rt payload r e =
    let (valid, checked, e1) = >>=-eq-ok (definitions_valid rt payload.params) _ e in
    let fields : fields_valid (record payload { prefix = normalize_prefix rt payload.prefix })
        ≡ true =
      ground (arith, e1) in
    let names : is_ok (
          validate_paginated_parameter_names
            (record payload { prefix = normalize_prefix rt payload.prefix }))
        ≡ true =
      ground (arith, e1) in
    let same : record payload { prefix = normalize_prefix rt payload.prefix } ≡ r =
      ground (arith, e1) in
    subst (IsAcceptable rt payload) same (IsAcceptable-of_valid rt payload _ refl fields names)
