-- ===== src/Dynamic/Parameters/Contract/Laws.antt =====
-- When the contract holds.
use data_api.Prelude.{
  ◌≡◌, ◌↔◌, refl, sym, ◌∙◌, Bool, true, false, not, ◌&&◌, List, [], ◌∷◌, arith, keep, is_empty,
}
use data_api.Text.{Text, eq_text_iff, eq_text_refl}
use data_api.Dict.{Dict, keys}
use data_api.Dynamic.Names.{is_parameter_name}
use data_api.Dynamic.Parameters.{DynamicParameterDefinition}
use data_api.Dynamic.Parameters.Contract.{difference, validate_parameter_contract}
use data_api.Errors.{ok}
use data_api.Text.Sort.{elem, sorted_set, elem-sorted_set}

elem-keep : (p : Text → Bool) (t : Text) (xs : List Text) → elem t (keep p xs) ≡ (p t && elem t xs)
unfolding elem
elem-keep p t [] = ground arith
elem-keep p t (x ∷ xs) = ground (arith, elem-keep p t xs, eq_text_iff x t)

is_empty_iff : (xs : List Text) → (is_empty xs ≡ true) ↔ ((t : Text) → elem t xs ≡ false)
unfolding elem
is_empty_iff [] = (λ h t. refl, λ h. refl)
is_empty_iff (x ∷ xs) = (λ h. cc, λ h. absurd (ground (arith, h x, eq_text_refl x)))

is_empty-sorted_set :
    (p : Text → Bool) (xs : List Text)
    → (is_empty (sorted_set (keep p xs)) ≡ true) ↔ ((t : Text) → (p t && elem t xs) ≡ false)
is_empty-sorted_set p xs = (
  λ h t.
      sym (elem-sorted_set t (keep p xs) ∙ elem-keep p t xs)
      ∙ (is_empty_iff (sorted_set (keep p xs))).0 h t,
  λ h.
      (is_empty_iff (sorted_set (keep p xs))).1
        (λ t. elem-sorted_set t (keep p xs) ∙ elem-keep p t xs ∙ h t),
)

pub is_empty-difference :
    (a b : List Text)
    → (is_empty (difference a b) ≡ true) ↔ ((t : Text) → (not (elem t b) && elem t a) ≡ false)
unfolding difference
is_empty-difference a b = is_empty-sorted_set (λ x. not (elem x b)) a

-- The contract of a set of placeholder names with definitions.
pub record IsContract (names : List Text) (definitions : Dict DynamicParameterDefinition)
    : Type 0 where
  pub identifiers : (t : Text) → elem t (keys definitions) ≡ true → is_parameter_name t ≡ true
  pub same_names : (t : Text) → elem t names ≡ elem t (keys definitions)

-- The check passes exactly when every defined name is an ASCII identifier and the placeholders of
-- the SQL are the defined names, none missing and none unused.
pub validate_parameter_contract_iff :
    (names : List Text) (definitions : Dict DynamicParameterDefinition)
    → (validate_parameter_contract names definitions ≡ ok tt) ↔ IsContract names definitions
unfolding validate_parameter_contract
validate_parameter_contract_iff names definitions = (
  λ e.
      let valid : is_empty (sorted_set (keep (λ n. not (is_parameter_name n)) (keys definitions)))
          ≡ true =
        ground (arith, e) in
      let all_defined : is_empty (difference names (keys definitions)) ≡ true = ground (arith, e) in
      let all_used : is_empty (difference (keys definitions) names) ≡ true = ground (arith, e) in
      record {
        identifiers = λ t h. ground (
          arith,
          h,
          (is_empty-sorted_set (λ n. not (is_parameter_name n)) (keys definitions)).0 valid t,
        );
        same_names = λ t. ground (
          arith,
          (is_empty-difference names (keys definitions)).0 all_defined t,
          (is_empty-difference (keys definitions) names).0 all_used t,
        );
      },
  λ c.
      rw
        ((is_empty-sorted_set (λ n. not (is_parameter_name n)) (keys definitions)).1
          (λ t. ground (arith, c.identifiers t)))
        (rw ((is_empty-difference names (keys definitions)).1 (λ t. ground (arith, c.same_names t)))
          (rw
            ((is_empty-difference (keys definitions) names).1 (λ t. ground (arith, c.same_names t)))
            refl)),
)
