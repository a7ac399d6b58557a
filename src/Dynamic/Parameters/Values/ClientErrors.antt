-- ===== src/Dynamic/Parameters/Values/ClientErrors.antt =====
-- What a cast of query parameters raises.
use data_api.Prelude.{
  ℕ, ◌≡◌, inl, inr, refl, Bool, true, false, not, ◌||◌, Option, none, some, List, [], ◌∷◌, ◌++◌,
  All, arith, is_empty, Bool-cases, any,
}
use data_api.Text.{Text, codes, eq_text}
use data_api.Dict.{Dict, get, put, keys, get-put}
use data_api.Dynamic.Names.{is_integer, int_of_text}
use data_api.Dynamic.Parameters.{
  DynamicParameterType, string, integer, boolean, string_list, DynamicParameterDefinition,
}
use data_api.Dynamic.Parameters.Cast.{
  is_finite, parts, collect_strings, cast_string_list, or_raise, finite_float, cast_boolean,
  str_list, try_cast, rescue, cast_value, validate_default, as_value_error,
}
use data_api.Dynamic.Parameters.Contract.{difference}
use data_api.Dynamic.Parameters.Values.{
  QueryParams, query_params, getlist, strs, collect_query, collect_raw_values, default_value,
  cast_single, cast_supplied, cast_parameter, cast_all, cast_parameter_values,
}
use data_api.Errors.{Exc, app_error, value_error, Result, ok, err, ◌>>=◌, raise_if}
use data_api.Value.{Value, str, is_null, Runtime}

-- An `AppError` with status 422.
abbrev pub Is422 : Exc → Type 0
Is422 (app_error a) = a.status_code ≡ 422
Is422 _ = ⊥

-- The computation succeeds, or raises an error of 422.
abbrev pub SucceedsOr422 : {A : Type 0} → Result A → Type 0
SucceedsOr422 (ok a) = Unit
SucceedsOr422 (err e) = Is422 e

-- The same, before `_cast_value` has turned a ValueError into an error of 422.
abbrev MayRaise : {A : Type 0} → Result A → Type 0
MayRaise (ok a) = Unit
MayRaise (err value_error) = Unit
MayRaise (err e) = Is422 e

rescue_lem :
    (ty : DynamicParameterType) (name : Text) (r : Result Value)
    → MayRaise r
    → SucceedsOr422 (rescue ty name r)
unfolding rescue
rescue_lem ty name (ok v) h = tt
rescue_lem ty name (err value_error) h = refl
rescue_lem ty name (err (app_error a)) h = h
rescue_lem ty name (err _) h = elim h [ ]

finite_float_lem : (o : Option ℕ) → MayRaise (finite_float (or_raise o value_error))
unfolding finite_float
finite_float_lem none = tt
finite_float_lem (some b) = elim (Bool-cases (is_finite b)) [ inl h ↦ rw h tt | inr h ↦ rw h tt ]

or_raise_lem :
    {A : Type 0} (f : A → Value) (o : Option A)
    → MayRaise (or_raise o value_error >>= λ a. ok (f a))
or_raise_lem f none = tt
or_raise_lem f (some a) = tt

cast_boolean_lem : (s : Text) → MayRaise (cast_boolean s)
unfolding cast_boolean
cast_boolean_lem s = elim (Bool-cases (eq_text s (codes "true") || eq_text s (codes "1"))) [
  | inl h ↦ rw h tt
  | inr h ↦ rw h (elim (Bool-cases (eq_text s (codes "false") || eq_text s (codes "0"))) [
    | inl k ↦ rw k tt
    | inr k ↦ rw k tt
  ])
]

try_cast_str :
    (rt : Runtime) (ty : DynamicParameterType) (s name : Text)
    → MayRaise (try_cast rt ty (str s) name)
unfolding try_cast
try_cast_str rt string s name = tt
try_cast_str rt integer s name = elim (Bool-cases (is_integer s)) [
  | inl h ↦ rw h (or_raise_lem Value.int (int_of_text s))
  | inr h ↦ rw h tt
]
try_cast_str rt DynamicParameterType.float s name = finite_float_lem (rt.float_of_text s)
try_cast_str rt boolean s name = cast_boolean_lem (rt.casefold s)
try_cast_str rt DynamicParameterType.date s name = or_raise_lem Value.date (rt.date_of_iso s)
try_cast_str rt DynamicParameterType.datetime s name =
    or_raise_lem Value.datetime (rt.datetime_of_iso s)
try_cast_str rt string_list s name = tt

cast_value_str :
    (rt : Runtime) (ty : DynamicParameterType) (s name : Text)
    → SucceedsOr422 (cast_value rt ty (str s) name)
unfolding cast_value
cast_value_str rt ty s name =
    rescue_lem ty name (try_cast rt ty (str s) name) (try_cast_str rt ty s name)

collect_strings-strs :
    (name : Text) (result ts : List Text)
    → (r : List Text) × (collect_strings name result (strs ts) ≡ ok r)
unfolding collect_strings
collect_strings-strs name result [] = (result, refl)
collect_strings-strs name result (t ∷ ts) = collect_strings-strs name (result ++ parts t) ts

cast_string_list-strs :
    (name : Text) (ts : List Text)
    → SucceedsOr422 (cast_string_list (strs ts) name >>= λ xs. ok (str_list xs))
unfolding cast_string_list
cast_string_list-strs name ts =
    let (r, e) = collect_strings-strs name [] ts in
    rw e (elim (Bool-cases (is_empty r || any is_empty r)) [ inl h ↦ rw h refl | inr h ↦ rw h tt ])

cast_single-strs :
    (rt : Runtime) (d : DynamicParameterDefinition) (name : Text) (ts : List Text)
    → SucceedsOr422 (cast_single rt d name (strs ts))
unfolding cast_single
cast_single-strs rt d name [] = refl
cast_single-strs rt d name (t ∷ []) = cast_value_str rt d.type t name
cast_single-strs rt d name (t ∷ u ∷ ts) = refl

cast_supplied-strs :
    (rt : Runtime) (d : DynamicParameterDefinition) (name : Text) (ty : DynamicParameterType)
    (ts : List Text)
    → SucceedsOr422 (cast_supplied rt d name ty (strs ts))
unfolding cast_supplied
cast_supplied-strs rt d name string_list ts = cast_string_list-strs name ts
cast_supplied-strs rt d name _ ts = cast_single-strs rt d name ts

-- `validate_default` accepts the definition, as it does when the route is stored and when it is read
-- again.
abbrev pub IsAccepted : Runtime → DynamicParameterDefinition → Type 0
IsAccepted rt d = validate_default rt d ≡ ok d

as_value_error-eq-ok :
    {A : Type 0} (r : Result Value) (a b : A) → as_value_error r a ≡ ok b → SucceedsOr422 r
as_value_error-eq-ok (ok v) a b e = tt
as_value_error-eq-ok (err (app_error x)) a b e = cc
as_value_error-eq-ok (err _) a b e = cc

default_value_accepted :
    (rt : Runtime) (d : DynamicParameterDefinition)
    → d.required ≡ false
    → IsAccepted rt d
    → SucceedsOr422 (default_value rt d)
unfolding default_value validate_default
default_value_accepted rt d r e = elim (Bool-cases (is_null d.default)) [
  | inl h ↦ rw h tt
  | inr h ↦ rw h (
      as_value_error-eq-ok (cast_value rt d.type d.default (codes "default")) d d
        (ground (arith, r, h, e)))
]

abbrev IsStrs : Option (List Value) → Type 0
IsStrs none = Unit
IsStrs (some vs) = (ts : List Text) × (vs ≡ strs ts)

cast_parameter_strs :
    (rt : Runtime) (d : DynamicParameterDefinition) (name : Text) (o : Option (List Value))
    → IsAccepted rt d
    → IsStrs o
    → SucceedsOr422 (cast_parameter rt d name o)
unfolding cast_parameter
cast_parameter_strs rt d name none a h = elim (Bool-cases d.required) [
  | inl r ↦ rw r refl
  | inr r ↦ rw r (default_value_accepted rt d r a)
]
cast_parameter_strs rt d name (some vs) a (ts, e) = rw e (cast_supplied-strs rt d name d.type ts)

pub bind_lem :
    {A B : Type 0} (m : Result A) (f : A → Result B)
    → SucceedsOr422 m
    → ((a : A) → SucceedsOr422 (f a))
    → SucceedsOr422 (m >>= f)
bind_lem (ok a) f h k = k a
bind_lem (err e) f h k = h

cast_all_strs :
    (rt : Runtime) (supplied : Dict (List Value)) (result : Dict Value)
    (ds : Dict DynamicParameterDefinition)
    → All (λ p. IsAccepted rt p.1) ds
    → ((k : Text) → IsStrs (get supplied k))
    → SucceedsOr422 (cast_all rt supplied result ds)
unfolding cast_all
cast_all_strs rt supplied result [] a h = tt
cast_all_strs rt supplied result ((name, d) ∷ ds) (a, rest) h =
    bind_lem (cast_parameter rt d name (get supplied name)) _
      (cast_parameter_strs rt d name (get supplied name) a (h name))
      (λ v. cast_all_strs rt supplied (put result name v) ds rest h)

collect_query-IsStrs :
    (all_items items : QueryParams) (collected : Dict (List Value)) (k : Text)
    → ((j : Text) → IsStrs (get collected j))
    → IsStrs (get (collect_query all_items collected items) k)
unfolding collect_query
collect_query-IsStrs all_items [] collected k h = h k
collect_query-IsStrs all_items ((name, v) ∷ items) collected k h =
    collect_query-IsStrs all_items items (put collected name (strs (getlist all_items name))) k
      (λ j. rw get-put (elim (Bool-cases (eq_text name j)) [
        | inl e ↦ rw e (getlist all_items name, refl)
        | inr e ↦ rw e (h j)
      ]))

-- Whatever the query string, the cast of its parameters succeeds or raises an error of 422, where
-- the definitions are accepted ones: no other exception leaves it.
pub cast_parameter_values_query :
    (rt : Runtime) (ds : Dict DynamicParameterDefinition) (items : QueryParams)
    → All (λ p. IsAccepted rt p.1) ds
    → SucceedsOr422 (cast_parameter_values rt ds (query_params items))
unfolding cast_parameter_values
cast_parameter_values_query rt ds items a =
    bind_lem
      (raise_if
        (not (is_empty (difference (keys (collect_raw_values (query_params items))) (keys ds)))) _)
      _ (raise_lem _ _ refl)
      (λ _. cast_all_strs rt (collect_raw_values (query_params items)) [] ds a (λ k.
        unfold collect_raw_values in collect_query-IsStrs items items [] k (λ j. unfold get in tt)))
  where
    raise_lem : (b : Bool) (e : Exc) → Is422 e → SucceedsOr422 (raise_if b e)
    raise_lem true e h = h
    raise_lem false e h = tt
