-- ===== src/Dynamic/Parameters/Cast/Laws.antt =====
-- What a cast returns.
use mathlib.Core.List.{append-nil, append_assoc}
use mathlib.Core.Path.{subst}
use data_api.Prelude.{
  [], ◌∷◌, ◌++◌, map, any, ℕ, ◌≡◌, Bool, true, false, List, All, arith, is_empty, ◌||◌, ◌==◌, inl,
  inr, Bool-cases, refl, sym, ap, ◌∙◌,
}
use data_api.Prelude.Int.{ℤ}
use data_api.Text.{codes, eq_text, split, strip, Text}
use data_api.Dynamic.Names.{int_of_text, is_integer}
use data_api.Dynamic.Parameters.{DynamicParameterType, string, integer, boolean, string_list}
use data_api.Dynamic.Parameters.Cast.{
  or_raise, try_cast, cast_value, cast_boolean, parts, collect_strings, cast_string_list, is_finite,
  finite_float, str_list, rescue,
}
use data_api.Errors.{>>=-eq-ok, overflow_error, value_error, type_error, Result, ok, err, ◌>>=◌}
use data_api.Text.Laws.{
  strip_of_IsStripped, split_of_Without, split-Without, strip-IsStripped, All-strip, IsStripped,
  Without,
}
use data_api.Value.{to_values, of_values, Runtime, Value, str}

-- An item of a string list: not empty, with no comma and no white space around it.
abbrev pub IsItem : Text → Type 0
IsItem s = (is_empty s ≡ false) × IsStripped s × Without b',' s

-- The values of a type.
abbrev pub HasType : DynamicParameterType → Value → Type 0
HasType string v = (s : Text) × (v ≡ str s)
HasType integer v = (z : ℤ) × (v ≡ Value.int z)
HasType DynamicParameterType.float v = (b : ℕ) × (is_finite b ≡ true) × (v ≡ Value.float b)
HasType boolean v = (b : Bool) × (v ≡ Value.bool b)
HasType DynamicParameterType.date v = (d : ℕ) × (v ≡ Value.date d)
HasType DynamicParameterType.datetime v = (d : ℕ) × (v ≡ Value.datetime d)
HasType string_list v = (ts : List Text) × (is_empty ts ≡ false) × All IsItem ts × (v ≡ str_list ts)

ok_inj : {A : Type 0} {a b : A} → ok a ≡ ok b → a ≡ b
ok_inj e = cc

rescue-eq-ok :
    (ty : DynamicParameterType) (name : Text) (r : Result Value) (w : Value)
    → rescue ty name r ≡ ok w
    → r ≡ ok w
unfolding rescue
rescue-eq-ok ty name (ok v) w h = h
rescue-eq-ok ty name (err value_error) w h = cc
rescue-eq-ok ty name (err type_error) w h = cc
rescue-eq-ok ty name (err _) w h = cc

finite_float-eq-ok :
    (r : Result ℕ) (w : Value)
    → finite_float r ≡ ok w
    → (b : ℕ) × (is_finite b ≡ true) × (w ≡ Value.float b)
unfolding finite_float
finite_float-eq-ok (ok b) w h = (b, ground arith, ground arith)
finite_float-eq-ok (err e) w h = cc

bind_ok-eq-ok :
    {A : Type 0} (f : A → Value) (r : Result A) (w : Value)
    → (r >>= λ a. ok (f a)) ≡ ok w
    → (a : A) × (w ≡ f a)
bind_ok-eq-ok f (ok a) w h = (a, cc)
bind_ok-eq-ok f (err e) w h = cc

abbrev IsPart : Text → Type 0
IsPart s = IsStripped s × Without b',' s

cast_boolean-eq-ok :
    (s : Text) (w : Value) → cast_boolean s ≡ ok w → (b : Bool) × (w ≡ Value.bool b)
unfolding cast_boolean
cast_boolean-eq-ok s w e = elim (Bool-cases (eq_text s (codes "true") || eq_text s (codes "1"))) [
  | inl h ↦ (true, ground (arith, h, e))
  | inr h ↦ (false, ground (arith, h, e))
]

All-append {ℓ} :
    {A : Type 0} (P : A → Type ℓ) (xs ys : List A) → All P xs → All P ys → All P (xs ++ ys)
All-append P [] ys h k = k
All-append P (x ∷ xs) ys (h, hs) k = (h, All-append P xs ys hs k)

map-strip-IsPart : (ps : List Text) → All (Without b',') ps → All IsPart (map strip ps)
map-strip-IsPart [] h = tt
map-strip-IsPart (p ∷ ps) (h, hs) =
    ((strip-IsStripped p, All-strip (λ c. (c == b',') ≡ false) p h), map-strip-IsPart ps hs)

collect_strings-IsPart :
    (name : Text) (result : List Text) (values : List Value) (ts : List Text)
    → collect_strings name result values ≡ ok ts
    → All IsPart result
    → All IsPart ts
unfolding collect_strings
collect_strings-IsPart name result [] ts e h = subst (All IsPart) (ok_inj e) h
collect_strings-IsPart name result (str s ∷ values) ts e h =
    collect_strings-IsPart name (result ++ parts s) values ts e (
      All-append IsPart result (parts s) h
        (unfold parts in map-strip-IsPart (split b',' s) (split-Without b',' s)))
collect_strings-IsPart name result (value ∷ values) ts e h = cc

All-IsItem : (ts : List Text) → any is_empty ts ≡ false → All IsPart ts → All IsItem ts
All-IsItem [] h k = tt
All-IsItem (t ∷ ts) h ((a, b), k) = ((ground arith, a, b), All-IsItem ts (ground arith) k)

pub cast_string_list-All :
    (values : List Value) (name : Text) (ts : List Text)
    → cast_string_list values name ≡ ok ts
    → (is_empty ts ≡ false) × All IsItem ts
unfolding cast_string_list
cast_string_list-All values name ts e =
    let (r, collected, e') = >>=-eq-ok (collect_strings name [] values) _ e in
    let same : r ≡ ts = ground (arith, e') in
    let some_part : is_empty ts ≡ false = ground (arith, e') in
    let all_full : any is_empty ts ≡ false = ground (arith, e') in
    (
      some_part,
      All-IsItem ts all_full
          (subst (All IsPart) same (collect_strings-IsPart name [] values r collected tt)),
    )

try_cast-HasType :
    (rt : Runtime) (ty : DynamicParameterType) (v : Value) (name : Text) (w : Value)
    → try_cast rt ty v name ≡ ok w
    → HasType ty w
unfolding try_cast
try_cast-HasType rt string (str s) name w e = (s, cc)
try_cast-HasType rt integer (Value.int z) name w e = (z, cc)
try_cast-HasType rt integer (str s) name w e = elim (Bool-cases (is_integer s)) [
  | inl h ↦ bind_ok-eq-ok Value.int (or_raise (int_of_text s) value_error) w (rw h at e)
  | inr h ↦ absurd (ground (arith, h, e))
]
try_cast-HasType rt DynamicParameterType.float (str s) name w e =
    finite_float-eq-ok (or_raise (rt.float_of_text s) value_error) w e
try_cast-HasType rt DynamicParameterType.float (Value.int z) name w e =
    finite_float-eq-ok (or_raise (rt.float_of_int z) overflow_error) w e
try_cast-HasType rt DynamicParameterType.float (Value.float bits) name w e =
    finite_float-eq-ok (ok bits) w e
try_cast-HasType rt boolean (Value.bool b) name w e = (b, cc)
try_cast-HasType rt boolean (str s) name w e = cast_boolean-eq-ok (rt.casefold s) w e
try_cast-HasType rt DynamicParameterType.date (Value.date d) name w e = (d, cc)
try_cast-HasType rt DynamicParameterType.date (str s) name w e =
    bind_ok-eq-ok Value.date (or_raise (rt.date_of_iso s) value_error) w e
try_cast-HasType rt DynamicParameterType.datetime (Value.datetime d) name w e = (d, cc)
try_cast-HasType rt DynamicParameterType.datetime (str s) name w e =
    bind_ok-eq-ok Value.datetime (or_raise (rt.datetime_of_iso s) value_error) w e
try_cast-HasType rt string_list (Value.list vs) name w e =
    let (ts, cast, same) = >>=-eq-ok (cast_string_list (of_values vs) name) _ e in
    let (full, each) = cast_string_list-All (of_values vs) name ts cast in (ts, full, each, cc)
try_cast-HasType rt ty v name w e = cc

-- A cast that succeeds returns a value of the declared type: a finite float, a list of non-empty
-- stripped texts with no comma, and so on.
pub cast_value-HasType :
    (rt : Runtime) (ty : DynamicParameterType) (v : Value) (name : Text) (w : Value)
    → cast_value rt ty v name ≡ ok w
    → HasType ty w
unfolding cast_value
cast_value-HasType rt ty v name w e =
    try_cast-HasType rt ty v name w (rescue-eq-ok ty name (try_cast rt ty v name) w e)

split_item : (t : Text) → IsItem t → parts t ≡ t ∷ []
unfolding parts
split_item t (full, stripped, plain) =
    rw (split_of_Without b',' t plain) (ap (λ s. s ∷ []) (strip_of_IsStripped t stripped))

collect_strings_items :
    (name : Text) (result ts : List Text)
    → All IsItem ts
    → collect_strings name result (of_values (to_values (map str ts))) ≡ ok (result ++ ts)
unfolding collect_strings
collect_strings_items name result [] h = ap ok (sym (append-nil result))
collect_strings_items name result (t ∷ ts) (h, hs) =
    rw (split_item t h, collect_strings)
      (collect_strings_items name (result ++ t ∷ []) ts hs
        ∙ ap ok (append_assoc result (t ∷ []) ts))

any-is_empty : (ts : List Text) → All IsItem ts → any is_empty ts ≡ false
any-is_empty [] h = refl
any-is_empty (t ∷ ts) ((full, s, c), hs) = rw full (any-is_empty ts hs)

cast_string_list_items :
    (name : Text) (ts : List Text)
    → is_empty ts ≡ false
    → All IsItem ts
    → cast_string_list (of_values (to_values (map str ts))) name ≡ ok ts
unfolding cast_string_list
cast_string_list_items name ts full h =
    rw (collect_strings_items name [] ts h) (rw full (rw (any-is_empty ts h) refl))

-- A value of the type is cast to itself; so casting twice is casting once.
pub cast_value_of_HasType :
    (rt : Runtime) (ty : DynamicParameterType) (w : Value) (name : Text)
    → HasType ty w
    → cast_value rt ty w name ≡ ok w
unfolding cast_value try_cast rescue
cast_value_of_HasType rt string w name (s, e) = rw e refl
cast_value_of_HasType rt integer w name (z, e) = rw e refl
cast_value_of_HasType rt DynamicParameterType.float w name (b, h, e) =
    rw e (unfold finite_float in rw h refl)
cast_value_of_HasType rt boolean w name (b, e) = rw e refl
cast_value_of_HasType rt DynamicParameterType.date w name (d, e) = rw e refl
cast_value_of_HasType rt DynamicParameterType.datetime w name (d, e) = rw e refl
cast_value_of_HasType rt string_list w name (ts, full, h, e) =
    rw e (rw (cast_string_list_items name ts full h) refl)

-- A cast that succeeds once gives a value that every later cast to the type leaves as it is.
pub cast_value_idem :
    (rt : Runtime) (ty : DynamicParameterType) (v : Value) (name name' : Text) (w : Value)
    → cast_value rt ty v name ≡ ok w
    → cast_value rt ty w name' ≡ ok w
cast_value_idem rt ty v name name' w e =
    cast_value_of_HasType rt ty w name' (cast_value-HasType rt ty v name w e)
