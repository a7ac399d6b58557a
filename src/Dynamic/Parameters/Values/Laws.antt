-- ===== src/Dynamic/Parameters/Values/Laws.antt =====
-- What the cast of all parameters returns.
use mathlib.Core.List.{append_assoc, append-nil}
use mathlib.Core.Path.{subst}
use data_api.Prelude.{
  ◌≡◌, ◌⊎◌, inl, inr, refl, sym, ◌∙◌, true, false, ◌||◌, Option, none, some, List, [], ◌∷◌, ◌++◌,
  arith, is_empty, Bool-cases,
}
use data_api.Text.{Text, codes, eq_text, eq_text_iff, eq_text_refl}
use data_api.Dict.{Dict, get, put, keys, HasDistinctKeys}
use data_api.Dynamic.Parameters.{DynamicParameterType, string_list, DynamicParameterDefinition}
use data_api.Dynamic.Parameters.Cast.{cast_string_list}
use data_api.Dynamic.Parameters.Cast.Laws.{HasType, cast_value-HasType, cast_string_list-All}
use data_api.Dynamic.Parameters.Contract.{difference}
use data_api.Dynamic.Parameters.Contract.Laws.{is_empty-difference}
use data_api.Dynamic.Parameters.Values.{
  RawValues, collect_raw_values, default_value, cast_single, cast_supplied, cast_parameter,
  cast_all, cast_parameter_values,
}
use data_api.Errors.{ok, >>=-eq-ok}
use data_api.Text.Sort.{elem}
use data_api.Value.{Value, null, is_null, Runtime}

-- A value that a parameter may have: of its type, or None where it is optional.
abbrev pub Fits : DynamicParameterDefinition → Value → Type 0
Fits d v = HasType d.type v ⊎ ((d.required ≡ false) × (v ≡ null))

-- One value for each definition, under the same name, in the same order.
abbrev pub AreFilled : Dict DynamicParameterDefinition → Dict Value → Type 0
AreFilled [] [] = Unit
AreFilled ((name, d) ∷ ds) ((name', v) ∷ vs) = (name ≡ name') × Fits d v × AreFilled ds vs
AreFilled [] (p ∷ vs) = ⊥
AreFilled (p ∷ ds) [] = ⊥

default_value-Fits :
    (rt : Runtime) (d : DynamicParameterDefinition) (v : Value)
    → d.required ≡ false
    → default_value rt d ≡ ok v
    → Fits d v
unfolding default_value
default_value-Fits rt d v r e = elim (Bool-cases (is_null d.default)) [
  | inl h ↦ inr (r, ground (arith, h, e))
  | inr h ↦ inl (cast_value-HasType rt d.type d.default (codes "default") v (ground (arith, h, e)))
]

cast_single-HasType :
    (rt : Runtime) (d : DynamicParameterDefinition) (name : Text) (values : List Value) (v : Value)
    → cast_single rt d name values ≡ ok v
    → HasType d.type v
unfolding cast_single
cast_single-HasType rt d name (w ∷ []) v e = cast_value-HasType rt d.type w name v e
cast_single-HasType rt d name [] v e = cc
cast_single-HasType rt d name (w ∷ x ∷ values) v e = cc

cast_supplied-HasType :
    (rt : Runtime) (d : DynamicParameterDefinition) (name : Text) (ty : DynamicParameterType)
    (values : List Value) (v : Value)
    → d.type ≡ ty
    → cast_supplied rt d name ty values ≡ ok v
    → HasType ty v
unfolding cast_supplied
cast_supplied-HasType rt d name string_list values v p e =
    let (ts, cast, same) = >>=-eq-ok (cast_string_list values name) _ e in
    let (full, each) = cast_string_list-All values name ts cast in (ts, full, each, cc)
cast_supplied-HasType rt d name ty values v p e =
    subst (λ t. HasType t v) p (cast_single-HasType rt d name values v e)

cast_parameter-Fits :
    (rt : Runtime) (d : DynamicParameterDefinition) (name : Text) (o : Option (List Value))
    (v : Value)
    → cast_parameter rt d name o ≡ ok v
    → Fits d v
unfolding cast_parameter
cast_parameter-Fits rt d name none v e = elim (Bool-cases d.required) [
  | inl h ↦ absurd (ground (arith, h, e))
  | inr h ↦ default_value-Fits rt d v h (ground (arith, h, e))
]
cast_parameter-Fits rt d name (some values) v e =
    inl (cast_supplied-HasType rt d name d.type values v refl e)

put_new :
    (d : Dict Value) (k : Text) (v : Value) → elem k (keys d) ≡ false → put d k v ≡ d ++ (k, v) ∷ []
unfolding put elem
put_new [] k v h = refl
put_new ((j, w) ∷ d) k v h = ground (arith, h, put_new d k v)

elem-keys_concat :
    (d : Dict Value) (k t : Text) (v : Value)
    → elem t (keys (d ++ (k, v) ∷ [])) ≡ (elem t (keys d) || eq_text k t)
unfolding elem
elem-keys_concat [] k t v = ground arith
elem-keys_concat ((j, w) ∷ d) k t v = ground (arith, elem-keys_concat d k t v)

ok_injective : {a b : Dict Value} → ok b ≡ ok a → a ≡ b
ok_injective e = cc

head_key {ℓ} : {A : Type ℓ} (ds : Dict A) (name : Text) → elem name (name ∷ keys ds) ≡ true
unfolding elem
head_key ds name = ground (arith, eq_text_refl name)

new_keys :
    (ds : Dict DynamicParameterDefinition) (result : Dict Value) (name : Text) (v : Value)
    → elem name (keys ds) ≡ false
    → ((t : Text) → elem t (name ∷ keys ds) ≡ true → elem t (keys result) ≡ false)
    → (t : Text) → elem t (keys ds) ≡ true
    → elem t (keys (result ++ (name, v) ∷ [])) ≡ false
new_keys ds result name v once new t h =
    rw elem-keys_concat (unfold elem in ground (arith, new t, eq_text_iff name t, once, h))

cast_all-AreFilled :
    (rt : Runtime) (supplied : Dict (List Value)) (result : Dict Value)
    (ds : Dict DynamicParameterDefinition) (r : Dict Value)
    → HasDistinctKeys ds
    → ((t : Text) → elem t (keys ds) ≡ true → elem t (keys result) ≡ false)
    → cast_all rt supplied result ds ≡ ok r
    → (vs : Dict Value) × (r ≡ result ++ vs) × AreFilled ds vs
unfolding cast_all
cast_all-AreFilled rt supplied result [] r distinct new e =
    ([], (ok_injective e ∙ sym (append-nil result)), tt)
cast_all-AreFilled rt supplied result ((name, d) ∷ ds) r (once, distinct) new e =
    let (v, cast, e') = >>=-eq-ok (cast_parameter rt d name (get supplied name)) _ e in
    let (vs, same, filled) =
      cast_all-AreFilled rt supplied (result ++ (name, v) ∷ []) ds r distinct
        (new_keys ds result name v once new)
        (subst (λ x. cast_all rt supplied x ds ≡ ok r)
          (put_new result name v (new name (head_key ds name))) e') in
    (
      (name, v) ∷ vs,
      same ∙ append_assoc result ((name, v) ∷ []) vs,
      (refl, cast_parameter-Fits rt d name (get supplied name) v cast, filled),
    )

-- Where no parameter is defined twice and the cast of all parameters succeeds, every supplied name is declared, and the result has
-- one entry for each definition, in order, under its name: a value of its type, or None where the
-- parameter is optional.
pub cast_parameter_values-AreFilled :
    (rt : Runtime) (ds : Dict DynamicParameterDefinition) (raw : RawValues) (r : Dict Value)
    → HasDistinctKeys ds
    → cast_parameter_values rt ds raw ≡ ok r
    → AreFilled ds r
      × ((t : Text) → elem t (keys (collect_raw_values raw)) ≡ true → elem t (keys ds) ≡ true)
unfolding cast_parameter_values
cast_parameter_values-AreFilled rt ds raw r distinct e =
    let known : is_empty (difference (keys (collect_raw_values raw)) (keys ds)) ≡ true =
      ground (arith, e) in
    let cast : cast_all rt (collect_raw_values raw) [] ds ≡ ok r = ground (arith, e) in
    let (vs, same, filled) =
      cast_all-AreFilled rt (collect_raw_values raw) [] ds r distinct (λ t h. unfold elem in refl)
        cast in
    (
      subst (AreFilled ds) (sym same) filled,
      λ t h.
          ground
            (arith, h, (is_empty-difference (keys (collect_raw_values raw)) (keys ds)).0 known t),
    )
