-- ===== src/Dynamic/Parameters/Values.antt =====
-- `cast_parameter_values` and `_collect_raw_values` of
-- app/services/query_engine/dynamic_parameters.py. `QueryParams` is the list of its `multi_items`.
pub mod Laws
pub mod ClientErrors
use data_api.Prelude.{
  ℕ, Bool, true, false, not, Option, none, some, List, [], ◌∷◌, keep, is_empty, if◌then◌else◌,
}
use data_api.Text.{Text, codes, eq_text}
use data_api.Dict.{Dict, get, put, keys}
use data_api.Dynamic.Parameters.{DynamicParameterType, string_list, DynamicParameterDefinition}
use data_api.Dynamic.Parameters.Cast.{cast_value, cast_string_list, str_list}
use data_api.Dynamic.Parameters.Contract.{difference}
use data_api.Dynamic.Parameters.Errors.{unknown_parameters, missing_parameter, supplied_once}
use data_api.Errors.{Result, ok, err, ◌>>=◌, ◌>>◌, raise_if}
use data_api.Text.Sort.{elem, sorted_set}
use data_api.Value.{Value, null, str, of_values, is_null, Runtime}

abbrev pub QueryParams : Type 0
QueryParams = List (Text × Text)

pub data RawValues : Type 0 where
  query_params : QueryParams → RawValues
  mapping : Dict Value → RawValues

-- raw_values.getlist(key)
unfoldable pub getlist : QueryParams → Text → List Text
getlist [] key = []
getlist ((k, v) ∷ items) key =
    let rest = getlist items key in if eq_text k key then v ∷ rest else rest

abbrev pub strs : List Text → List Value
strs [] = []
strs (t ∷ ts) = str t ∷ strs ts

-- {key: list(raw_values.getlist(key)) for key in raw_values}: `collected` holds the keys visited, and
-- a key that comes again is given the same list again.
unfoldable pub collect_query : QueryParams → Dict (List Value) → QueryParams → Dict (List Value)
unfolding getlist
collect_query all_items collected [] = collected
collect_query all_items collected ((k, v) ∷ items) =
    collect_query all_items (put collected k (strs (getlist all_items k))) items

abbrev as_list : Value → List Value
as_list (Value.list vs) = of_values vs
as_list v = v ∷ []

unfoldable pub collect_mapping : Dict Value → Dict (List Value)
collect_mapping [] = []
collect_mapping ((k, v) ∷ d) = (k, as_list v) ∷ collect_mapping d

unfoldable pub collect_raw_values : RawValues → Dict (List Value)
unfolding collect_query collect_mapping
collect_raw_values (query_params items) = collect_query items [] items
collect_raw_values (mapping d) = collect_mapping d

-- the value of an optional parameter that is not supplied
unfoldable pub default_value : Runtime → DynamicParameterDefinition → Result Value
default_value rt definition =
    if is_null definition.default
    then ok null
    else cast_value rt definition.type definition.default (codes "default")

unfoldable pub cast_single : Runtime → DynamicParameterDefinition → Text → List Value → Result Value
cast_single rt definition name (v ∷ []) = cast_value rt definition.type v name
cast_single rt definition name values = err (supplied_once name)

unfoldable pub cast_supplied :
    Runtime → DynamicParameterDefinition → Text → DynamicParameterType → List Value → Result Value
unfolding cast_single
cast_supplied rt definition name string_list values = do
  ts ← cast_string_list values name
  ok (str_list ts)
cast_supplied rt definition name type values = cast_single rt definition name values

-- the body of the loop, from `supplied.get(name)`
unfoldable pub cast_parameter :
    Runtime → DynamicParameterDefinition → Text → Option (List Value) → Result Value
unfolding default_value cast_supplied
cast_parameter rt definition name none =
    if definition.required then err (missing_parameter name) else default_value rt definition
cast_parameter rt definition name (some values) =
    cast_supplied rt definition name definition.type values

-- the loop over the definitions, with its `result`
unfoldable pub cast_all :
    Runtime → Dict (List Value) → Dict Value → Dict DynamicParameterDefinition → Result (Dict Value)
unfolding cast_parameter
cast_all rt supplied result [] = ok result
cast_all rt supplied result ((name, definition) ∷ definitions) = do
  value ← cast_parameter rt definition name (get supplied name)
  cast_all rt supplied (put result name value) definitions

unfoldable pub cast_parameter_values :
    Runtime → Dict DynamicParameterDefinition → RawValues → Result (Dict Value)
unfolding collect_raw_values cast_all difference
cast_parameter_values rt definitions raw_values = do
  let supplied = collect_raw_values raw_values
  let unknown = difference (keys supplied) (keys definitions)
  raise_if (not (is_empty unknown)) (unknown_parameters unknown)
  cast_all rt supplied [] definitions
