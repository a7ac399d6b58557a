-- ===== src/Tests/Samples.antt =====
-- Concrete inputs: a runtime, a parser that knows SELECT and DELETE, and a service over them.
use data_api.Prelude.{
  ◌+◌, ◌&&◌, ltb, drop, ◌||◌, ◌-◌, leb, none, if◌then◌else◌, false, ℕ, true, map, [], Bool, ◌∷◌,
  some,
}
use data_api.Prelude.Int.{pos}
use data_api.Text.{split, starts_with, codes, Text}
use data_api.Dict.{Dict}
use data_api.Dynamic.Names.{is_ascii_digit}
use data_api.Dynamic.Pagination.{rows_only}
use data_api.Dynamic.Parameters.{integer, DynamicParameterDefinition}
use data_api.Dynamic.Routes.{WriteRequest, Env}
use data_api.Dynamic.Safety.{NodeClass, Sqlglot, Parsed, Dialect, ValidatedSql}
use data_api.Dynamic.Store.{DynamicRoute, World}
use data_api.Errors.{ok}
use data_api.Value.{str, null, Value, Runtime}

abbrev pub to_lower : ℕ → ℕ
to_lower c = if leb b'A' c && leb c b'Z' then c + 32 else c

abbrev pub runtime : Runtime
runtime = record {
  repr = λ v. codes "repr";
  lower = map to_lower;
  casefold = map to_lower;
  is_digit = is_ascii_digit;
  decimal = λ c. if is_ascii_digit c then some (c - b'0') else none;
  is_category_c = λ c. ltb c 32;
  date_of_iso = λ s. none;
  datetime_of_iso = λ s. none;
  float_of_text = λ s. none;
  float_of_int = λ z. some 0;
  int_of = λ v. none;
}

-- A statement is its text; its nodes are the statement and its words.
abbrev pub is_a : Text → NodeClass → Bool
is_a s NodeClass.select = starts_with s (codes "SELECT ")
is_a s NodeClass.placeholder = starts_with s (codes ":")
is_a s NodeClass.delete = starts_with s (codes "DELETE")
is_a s _ = false

abbrev pub parser : Sqlglot
parser = record {
  Expression = Text;
  parse = λ s d.
      if starts_with s (codes "SELECT ") || starts_with s (codes "DELETE ")
      then ok (Parsed.statements (some s ∷ []))
      else ok (Parsed.parse_error []);
  parse_one = λ s d.
      if starts_with s (codes "SELECT ") || starts_with s (codes "DELETE ")
      then ok (some s)
      else ok none;
  isinstance = is_a;
  walk = λ s. s ∷ split b' ' s;
  name = drop 1;
  sql = λ s d. ok s;
}

abbrev pub sql : Text
sql = codes "SELECT customer_id FROM t WHERE b = :b"

abbrev pub b_definition : DynamicParameterDefinition
b_definition = record { type = integer; required = true; default = null; description = [] }

abbrev pub definitions : Dict DynamicParameterDefinition
definitions = (codes "b", b_definition) ∷ []

abbrev pub validated : ValidatedSql
validated = record { canonical_sql = sql; parameter_names = codes "b" ∷ [] }

abbrev pub token : Text
token = codes "0123456789abcdef0123456789abcdef"

abbrev pub cache : Dict Text
cache = (token, codes "C1") ∷ []

abbrev pub row : Dict Value
row = (codes "customer_id", str token) ∷ (codes "n", null) ∷ []

abbrev pub env : Env
env = record {
  sqlglot = parser;
  runtime = runtime;
  Json = DynamicParameterDefinition;
  model_dump = λ d. d;
  model_validate = λ d. some d;
  trino_client = λ s p. ok (row ∷ []);
  postgres_client = none;
  token_to_value = some cache;
}

abbrev pub route : DynamicRoute DynamicParameterDefinition
route = record {
  id = 1;
  prefix = codes "alice";
  path = codes "report";
  description = [];
  original_sql = sql;
  canonical_sql = sql;
  parameter_definitions = definitions;
  db_type = Dialect.trino;
  pii_type = none;
  response_type = rows_only;
  created_by = none;
  updated_by = none;
}

abbrev pub payload : WriteRequest
payload = record {
  prefix = codes "alice";
  path = codes "new";
  sql = sql;
  params = definitions;
  description = [];
  db_type = Dialect.trino;
  pii_type = none;
  response_type = rows_only;
  lab_test = true;
  lab_test_params = (codes "b", Value.int (pos 7)) ∷ [];
}

abbrev pub world : World DynamicParameterDefinition
world = record {
  committed = route ∷ [];
  session = route ∷ [];
  next_id = 2;
  concurrent = [];
  executed = [];
  flush_error = λ rows. none;
  commit_error = λ rows. none;
}
