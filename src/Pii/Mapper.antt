-- ===== src/Pii/Mapper.antt =====
-- app/services/query_engine/pii_mapper.py, with `MissingPiiMapping` of app/schemas/common.py. The
-- method changes its rows in place; here it returns them.
pub mod Laws
use data_api.Prelude.{
  ℕ, Bool, true, false, Option, none, some, List, [], ◌∷◌, ◌++◌, if◌then◌else◌, is_empty,
}
use data_api.Text.{Text}
use data_api.Dict.{Dict, get, put}
use data_api.Errors.{Result, ok, err, value_error}
use data_api.Pii.Rules.{PiiColumnRule, QuerySpec, pii_columns}
use data_api.Value.{Value, null, is_null}

pub record MissingPiiMapping : Type 0 where
  pub column_name : Text
  pub value : Value

abbrev pub Row : Type 0
Row = Dict Value

abbrev pub missing_if : Bool → Text → Value → List MissingPiiMapping
missing_if true column_name value = record { column_name = column_name; value = value } ∷ []
missing_if false column_name value = []

-- the body of the inner loop, from the value of the row's column
unfoldable pub map_value :
    Dict Text → Text → PiiColumnRule → Row → Option Value → Row × List MissingPiiMapping
map_value cache column_name rule row none = (row, [])
map_value cache column_name rule row (some value) =
    if is_null value
    then (row, [])
    else let transformed_val = rule.transformer value cache in
      (put row column_name transformed_val, missing_if (is_null transformed_val) column_name value)

-- the inner loop, over the rules
unfoldable pub map_row : Dict Text → Dict PiiColumnRule → Row → Row × List MissingPiiMapping
unfolding map_value
map_row cache [] row = (row, [])
map_row cache ((column_name, rule) ∷ rules) row =
    let (row', missing) = map_value cache column_name rule row (get row column_name) in
    let (row'', more) = map_row cache rules row' in (row'', missing ++ more)

-- the outer loop, over the rows
unfoldable pub map_rows :
    Dict Text → Dict PiiColumnRule → List Row → List Row × List MissingPiiMapping
unfolding map_row
map_rows cache rules [] = ([], [])
map_rows cache rules (row ∷ rows) =
    let (row', missing) = map_row cache rules row in
    let (rows', more) = map_rows cache rules rows in (row' ∷ rows', missing ++ more)

unfoldable pub map_pii_fields :
    {S : Type 0} → Dict Text → List Row → QuerySpec S → Result (List Row × List MissingPiiMapping)
unfolding map_rows pii_columns
map_pii_fields token_to_value rows spec =
    if is_empty (pii_columns spec)
    then err value_error
    else if is_empty rows
    then ok (rows, [])
    else ok (map_rows token_to_value spec.column_pii_rules rows)
