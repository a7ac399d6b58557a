-- ===== src/Tests/Parameters.antt =====
-- The theorems on SQL safety, parameters and pagination, at concrete inputs.
use data_api.Prelude.{true, ◌↔◌, some, refl, [], ◌∷◌, ◌≡◌, List}
use data_api.Prelude.Int.{neg}
use data_api.Text.{Text, codes}
use data_api.Dict.{keys}
use data_api.Dynamic.Pagination.{paginated, Extracted, extract_pagination}
use data_api.Dynamic.Pagination.Bounds.{IsPage, extract_pagination-IsPage}
use data_api.Dynamic.Parameters.{string_list, DynamicParameterDefinition}
use data_api.Dynamic.Parameters.Cast.{cast_value, validate_default}
use data_api.Dynamic.Parameters.Cast.Laws.{HasType, cast_value-HasType}
use data_api.Dynamic.Parameters.Contract.{validate_parameter_contract}
use data_api.Dynamic.Parameters.Contract.Laws.{IsContract, validate_parameter_contract_iff}
use data_api.Dynamic.Parameters.Values.{query_params, cast_parameter_values, collect_raw_values}
use data_api.Dynamic.Parameters.Values.ClientErrors.{SucceedsOr422, cast_parameter_values_query}
use data_api.Dynamic.Parameters.Values.Laws.{AreFilled, cast_parameter_values-AreFilled}
use data_api.Dynamic.Safety.{validate, Dialect, Sqlglot}
use data_api.Dynamic.Safety.Answers.{Answers, validate-Answers}
use data_api.Dynamic.Safety.Policy.{
  IsClean, IsReadOnlySelect, AreItsParameters, validate-IsReadOnlySelect,
}
use data_api.Errors.{ok, err, runtime_error}
use data_api.Tests.Samples.{runtime, parser, sql, definitions, validated, b_definition}
use data_api.Text.Sort.{elem}
use data_api.Value.{str, to_values, Value}

pub sql_validates : validate parser runtime sql Dialect.trino ≡ ok validated
unfolding validate data_api.Text.strip data_api.Text.rstrip_by data_api.Text.lstrip_by
    data_api.Text.is_space data_api.Text.starts_with data_api.Text.split
    data_api.Dynamic.Names.is_parameter_name data_api.Text.Sort.sorted_set
sql_validates = refl

-- a second statement hidden in the first is refused
delete_is_refused :
    Answers parser
      (codes "SELECT a FROM DELETE t")
      Dialect.trino
      (validate parser runtime (codes "SELECT a FROM DELETE t") Dialect.trino)
delete_is_refused = validate-Answers parser runtime (codes "SELECT a FROM DELETE t") Dialect.trino

validate-IsReadOnlySelect_example :
    IsClean runtime sql
    × IsReadOnlySelect parser sql Dialect.trino
    × AreItsParameters parser sql Dialect.trino (codes "b" ∷ [])
validate-IsReadOnlySelect_example =
    validate-IsReadOnlySelect parser runtime sql Dialect.trino validated sql_validates

validate-Answers_example :
    Answers parser
      (codes "DROP")
      Dialect.postgres
      (validate parser runtime (codes "DROP") Dialect.postgres)
validate-Answers_example = validate-Answers parser runtime (codes "DROP") Dialect.postgres

-- SQL that sqlglot nests too deeply for Python
abbrev too_deep : Sqlglot
too_deep = record parser { parse = λ s d. err runtime_error }

recursion_is_not_caught : validate too_deep runtime sql Dialect.trino ≡ err runtime_error
unfolding validate data_api.Dynamic.Safety.validate_characters data_api.Text.strip
    data_api.Text.rstrip_by data_api.Text.lstrip_by data_api.Text.is_space
recursion_is_not_caught = refl

list_casts :
    cast_value runtime string_list (Value.list (to_values (str (codes " a,b") ∷ []))) (codes "ids")
    ≡ ok (Value.list (to_values (str (codes "a") ∷ str (codes "b") ∷ [])))
unfolding cast_value data_api.Text.split data_api.Text.strip data_api.Text.rstrip_by
    data_api.Text.lstrip_by data_api.Text.is_space
list_casts = refl

cast_value-HasType_example :
    HasType string_list (Value.list (to_values (str (codes "a") ∷ str (codes "b") ∷ [])))
cast_value-HasType_example =
    cast_value-HasType runtime string_list (Value.list (to_values (str (codes " a,b") ∷ [])))
      (codes "ids") (Value.list (to_values (str (codes "a") ∷ str (codes "b") ∷ []))) list_casts

validate_parameter_contract_iff_example :
    (validate_parameter_contract (codes "b" ∷ []) definitions ≡ ok tt)
    ↔ IsContract (codes "b" ∷ []) definitions
validate_parameter_contract_iff_example =
    validate_parameter_contract_iff (codes "b" ∷ []) definitions

query_casts :
    cast_parameter_values runtime definitions (query_params ((codes "b", codes "-12") ∷ []))
    ≡ ok ((codes "b", Value.int (neg 12)) ∷ [])
unfolding cast_parameter_values data_api.Text.Sort.sorted_set data_api.Dict.put elem
    data_api.Text.eq_text data_api.Dict.get cast_value data_api.Dynamic.Names.is_integer
    data_api.Dynamic.Names.int_of_text
query_casts = refl

cast_parameter_values-AreFilled_example :
    AreFilled definitions ((codes "b", Value.int (neg 12)) ∷ [])
    × ((t : Text)
        → elem t (keys (collect_raw_values (query_params ((codes "b", codes "-12") ∷ [])))) ≡ true
        → elem t (keys definitions) ≡ true)
unfolding elem
cast_parameter_values-AreFilled_example =
    cast_parameter_values-AreFilled runtime definitions
      (query_params ((codes "b", codes "-12") ∷ [])) ((codes "b", Value.int (neg 12)) ∷ [])
      (refl, tt) query_casts

b_is_accepted : validate_default runtime b_definition ≡ ok b_definition
unfolding validate_default
b_is_accepted = refl

cast_parameter_values_query_example :
    SucceedsOr422
      (cast_parameter_values runtime definitions (query_params ((codes "b", codes "x") ∷ [])))
cast_parameter_values_query_example =
    cast_parameter_values_query runtime definitions ((codes "b", codes "x") ∷ [])
      (b_is_accepted, tt)

abbrev page_query : List (Text × Text)
page_query = (codes "b", codes "1") ∷ (codes "page", codes "2") ∷ []

abbrev second_page : Extracted
second_page = record { query_params = (codes "b", codes "1") ∷ []; page_and_size = some (2, 100) }

page_is_extracted : extract_pagination runtime page_query paginated ≡ ok second_page
unfolding extract_pagination data_api.Dynamic.Parameters.Values.getlist data_api.Text.eq_text
    data_api.Dynamic.Names.is_ascii_digit
page_is_extracted = refl

extract_pagination-IsPage_example : IsPage second_page
extract_pagination-IsPage_example =
    extract_pagination-IsPage runtime page_query second_page page_is_extracted
