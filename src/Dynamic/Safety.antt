-- ===== src/Dynamic/Safety.antt =====
-- app/services/query_engine/sql_safety.py. The parser sqlglot is a parameter.
pub mod Placeholders
pub mod Policy
pub mod Answers
use data_api.Prelude.{
  ℕ, Bool, true, false, not, ◌&&◌, ◌||◌, Option, none, some, String, List, [], ◌∷◌, any, keep,
  is_empty, ◌==◌, if◌then◌else◌,
}
use data_api.Text.{Text, codes, eq_text, strip}
use data_api.Dynamic.Names.{is_parameter_name}
use data_api.Dynamic.Safety.Placeholders.{colon_parameters}
use data_api.Errors.{Piece, lit, Exc, app_error, Result, ok, err, ◌>>=◌, ◌>>◌, raise_if}
use data_api.Text.Sort.{sorted_set}
use data_api.Value.{Runtime}

-- DynamicRouteDatabaseType, whose value is the name of the dialect
pub data Dialect : Type 0 where
  trino postgres : Dialect

abbrev pub dialect_value : Dialect → String
dialect_value trino = "trino"
dialect_value postgres = "postgres"

-- The classes of sqlglot's `exp` that the program tests for.
pub data NodeClass : Type 0 where
  select placeholder : NodeClass
  insert update delete merge create drop alter truncate_table grant revoke set use_node transaction
        commit rollback execute show describe command :
      NodeClass

abbrev pub forbidden_nodes : List NodeClass
forbidden_nodes =
    insert ∷ update ∷ delete ∷ merge ∷ create ∷ drop ∷ alter ∷ truncate_table ∷ grant ∷ revoke ∷ set
    ∷ use_node ∷ transaction ∷ commit ∷ rollback ∷ execute ∷ show ∷ describe ∷ command ∷ []

-- What `sqlglot.parse` does: it returns the statements, each of which may be None, or raises a
-- ParseError with the highlights of its errors, or another SqlglotError.
pub data Parsed (E : Type 0) : Type 0 where
  statements : List (Option E) → Parsed E
  parse_error : List (Option Text) → Parsed E
  sqlglot_error : Parsed E

-- sqlglot: `parse`; `parse_one`, where `none` is a SqlglotError; the tests of class; the nodes of
-- `walk`; the name of a node; and `sql(dialect, comments=False)`. An `err` is any other exception, such
-- as a RecursionError on deeply nested SQL, or whatever `sql` raises.
pub record Sqlglot : Type 1 where
  pub Expression : Type 0
  pub parse : Text → Dialect → Result (Parsed Expression)
  pub parse_one : Text → Dialect → Result (Option Expression)
  pub isinstance : Expression → NodeClass → Bool
  pub walk : Expression → List Expression
  pub name : Expression → Text
  pub sql : Expression → Dialect → Result Text

abbrev pub dynamic_sql_error : String → List Piece → Exc
dynamic_sql_error code message =
    app_error (record { status_code = 422; code = code; message = message; details = [] })

pub record ValidatedSql : Type 0 where
  pub canonical_sql : Text
  pub parameter_names : List Text

abbrev pub invalid_parameter : Exc
invalid_parameter =
    dynamic_sql_error "dynamic_sql_invalid_parameter"
      (lit "SQL parameters must use :name with an ASCII identifier" ∷ [])

abbrev pub invalid_sql : Dialect → Exc
invalid_sql dialect =
    dynamic_sql_error "dynamic_sql_invalid"
      (lit "SQL is not valid " ∷ lit (dialect_value dialect) ∷ lit " SQL" ∷ [])

abbrev pub multiple_statements : Exc
multiple_statements =
    dynamic_sql_error "dynamic_sql_multiple_statements"
      (lit "Exactly one SQL statement is required" ∷ [])

abbrev pub is_allowed_control : ℕ → Bool
is_allowed_control c = c == 9 || c == 10 || c == 13

unfoldable pub validate_characters : Runtime → Text → Result (Unit {0})
validate_characters rt [] = ok tt
validate_characters rt (c ∷ s) =
    let rest = validate_characters rt s in
    if not (is_allowed_control c) && rt.is_category_c c
    then err (
        dynamic_sql_error "dynamic_sql_unsafe_character"
          (lit "SQL contains an unsafe control or formatting character" ∷ []))
    else rest

abbrev is_colon : Option Text → Bool
is_colon none = false
is_colon (some h) = eq_text h (codes ":")

module _ (g : Sqlglot) where
  open g use {Expression, parse, parse_one, isinstance, walk, name, sql}

  unfoldable pub is_forbidden : Expression → Bool
  is_forbidden node = any (isinstance node) forbidden_nodes

  unfoldable pub validate_select_tree : Expression → Result (Unit {0})
  unfolding is_forbidden
  validate_select_tree expression = do
    raise_if (not (isinstance expression select)) (
        dynamic_sql_error "dynamic_sql_statement_not_allowed"
          (lit "Only SELECT queries are allowed" ∷ []))
    raise_if (any is_forbidden (walk expression)) (
        dynamic_sql_error "dynamic_sql_statement_not_allowed"
          (lit "Only read-only SELECT expressions are allowed" ∷ []))

  -- the `try` around `sqlglot.parse_one`: only a SqlglotError is caught
  unfoldable pub parse_canonical_sql : Text → Dialect → Result Expression
  parse_canonical_sql canonical_sql dialect = elim (parse_one canonical_sql dialect) [
    | err e ↦ err e
    | ok parsed ↦ elim parsed [
      | none ↦ err (
          dynamic_sql_error "dynamic_sql_invalid" (lit "Canonical SQL could not be validated" ∷ []))
      | some expression ↦ ok expression
    ]
  ]

  -- `find_all(exp.Placeholder)`
  abbrev pub placeholders : Expression → List Expression
  placeholders expression = keep (λ node. isinstance node placeholder) (walk expression)

  -- the loop over the placeholders
  unfoldable pub collect_names : List Expression → Result (List Text)
  collect_names [] = ok []
  collect_names (node ∷ nodes) =
      let rest = (do names ← collect_names nodes; ok (name node ∷ names)) in
      if not (is_parameter_name (name node)) then err invalid_parameter else rest

  -- the `try` around `sqlglot.parse`, and the test for one statement
  unfoldable pub parse_statement : Text → Dialect → Parsed Expression → Result Expression
  parse_statement text dialect (statements (some expression ∷ [])) = ok expression
  parse_statement text dialect (statements _) = err multiple_statements
  parse_statement text dialect (parse_error highlights) =
      if any is_colon highlights then err invalid_parameter else err (invalid_sql dialect)
  parse_statement text dialect sqlglot_error = err (invalid_sql dialect)

  unfoldable pub canonical : Expression → Dialect → Result Text
  canonical expression trino = sql expression trino
  canonical expression postgres = do
    canonical_sql ← sql expression postgres
    ok (colon_parameters canonical_sql)

  -- SqlSafetyValidator.validate
  unfoldable pub validate : Runtime → Text → Dialect → Result ValidatedSql
  unfolding validate_characters parse_statement validate_select_tree canonical parse_canonical_sql
      collect_names
  validate rt text dialect = do
    validate_characters rt text
    raise_if (is_empty (strip text))
        (dynamic_sql_error "dynamic_sql_empty" (lit "SQL must not be empty" ∷ []))
    parsed ← parse text dialect
    expression ← parse_statement text dialect parsed
    validate_select_tree expression
    canonical_sql ← canonical expression dialect
    reparsed ← parse_canonical_sql canonical_sql dialect
    validate_select_tree reparsed
    names ← collect_names (placeholders reparsed)
    ok (record { canonical_sql = canonical_sql; parameter_names = sorted_set names })
