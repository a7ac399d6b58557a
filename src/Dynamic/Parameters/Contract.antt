-- ===== src/Dynamic/Parameters/Contract.antt =====
-- `validate_parameter_contract` of app/services/query_engine/dynamic_parameters.py.
pub mod Laws
use data_api.Prelude.{Bool, true, false, not, ◌&&◌, ◌||◌, List, [], ◌∷◌, keep, is_empty}
use data_api.Text.{Text}
use data_api.Dict.{Dict, keys}
use data_api.Dynamic.Names.{is_parameter_name}
use data_api.Dynamic.Parameters.{DynamicParameterDefinition}
use data_api.Dynamic.Parameters.Errors.{invalid_name, contract_mismatch}
use data_api.Errors.{Result, ok, ◌>>◌, ◌>>=◌, raise_if}
use data_api.Text.Sort.{elem, sorted_set}

-- sorted(a - b)
unfoldable pub difference : List Text → List Text → List Text
difference a b = sorted_set (keep (λ x. not (elem x b)) a)

-- A frozenset of names is a list of them.
unfoldable pub validate_parameter_contract :
    List Text → Dict DynamicParameterDefinition → Result (Unit {0})
unfolding difference
validate_parameter_contract parameter_names definitions = do
  let invalid_names = sorted_set (keep (λ name. not (is_parameter_name name)) (keys definitions))
  raise_if (not (is_empty invalid_names)) (invalid_name invalid_names)
  let missing = difference parameter_names (keys definitions)
  let unused = difference (keys definitions) parameter_names
  raise_if (not (is_empty missing) || not (is_empty unused)) (contract_mismatch missing unused)
