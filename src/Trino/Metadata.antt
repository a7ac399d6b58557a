-- ===== src/Trino/Metadata.antt =====
-- The methods of TrinoPythonClient in app/infrastructure/trino/client.py that ask for names, with the
-- URL and the timeout of its calls. A statement's run is a parameter of the methods.
pub mod Statements
use data_api.Prelude.{ℕ, Bool, Option, none, some, List, [], ◌∷◌, ◌++◌, map, if◌then◌else◌}
use data_api.Text.{Text, codes, eq_text}
use data_api.Errors.{lit, Exc, Result, ok, err, ◌>>=◌, key_error, app_error}
use data_api.Pii.Mapper.{Row}
use data_api.Trino.Engine.{Client, take_engine, dispose}
use data_api.Trino.Identifiers.{quote_identifier_path}
use data_api.Value.{Value, null, Runtime, to_str}

pub record TrinoColumn : Type 0 where
  pub name : Text
  pub type : Text
  pub extra : Option Text
  pub comment : Option Text

-- the URL's parts that the settings give
pub record TrinoSettings : Type 0 where
  pub user : Text
  pub password : Option Text
  pub host : Text
  pub port : ℕ

abbrev pub non_empty : Option Text → Option Text
non_empty (some (c ∷ s)) = some (c ∷ s)
non_empty _ = none

-- an empty password is none
unfoldable pub trino_url : TrinoSettings → TrinoSettings
trino_url settings = record settings { password = non_empty settings.password }

abbrev pub dispose_taken : Option ℕ → Client → Client
dispose_taken none w = w
dispose_taken (some e) w = dispose e w

unfoldable pub dispose_current_engine : Client → Client
unfolding take_engine dispose
dispose_current_engine w = let (o, w') = take_engine w in dispose_taken o w'

abbrev pub external_service_timeout_error : Exc
external_service_timeout_error = app_error (record {
  status_code = 504;
  code = "external_service_timeout";
  message = lit "Trino query" ∷ lit " timed out" ∷ [];
  details = [];
})

-- What `asyncio.wait_for` comes to: `none` is a TimeoutError.
unfoldable pub settle_execute : Option (Result (List Row)) → Client → Result (List Row) × Client
unfolding dispose_current_engine
settle_execute none w = (err external_service_timeout_error, dispose_current_engine w)
settle_execute (some r) w = (r, w)

module _ (rt : Runtime) where
  unfoldable pub first_column_values : List Row → List Text
  first_column_values [] = []
  first_column_values ([] ∷ rows) = first_column_values rows
  first_column_values (((k, v) ∷ row) ∷ rows) = to_str rt v ∷ first_column_values rows

  unfoldable pub row_value : Row → Text → Result Value
  row_value [] column_name = err key_error
  row_value ((key, value) ∷ row) column_name =
      let rest = row_value row column_name in
      if eq_text (rt.lower key) (rt.lower column_name) then ok value else rest

  abbrev pub optional_text : Value → Option Text
  optional_text null = none
  optional_text v = some (to_str rt v)

  unfoldable pub optional_row_value : Row → Text → Result (Option Text)
  unfolding row_value
  optional_row_value row column_name = do
    value ← row_value row column_name
    ok (optional_text value)

  unfoldable pub trino_column : Row → Result TrinoColumn
  unfolding optional_row_value
  trino_column row = do
    name ← row_value row (codes "Column")
    type ← row_value row (codes "Type")
    extra ← optional_row_value row (codes "Extra")
    comment ← optional_row_value row (codes "Comment")
    ok (record { name = to_str rt name; type = to_str rt type; extra = extra; comment = comment })

  unfoldable pub trino_columns : List Row → Result (List TrinoColumn)
  unfolding trino_column
  trino_columns [] = ok []
  trino_columns (row ∷ rows) = do
    column ← trino_column row
    columns ← trino_columns rows
    ok (column ∷ columns)

  module _ (execute : Text → Result (List Row)) where
    unfoldable pub get_catalogs : Result (List Text)
    unfolding first_column_values
    get_catalogs = do rows ← execute (codes "SHOW CATALOGS"); ok (first_column_values rows)

    unfoldable pub get_schemas : Text → Result (List Text)
    unfolding first_column_values quote_identifier_path
    get_schemas catalog = do
      catalog_name ← quote_identifier_path catalog
      rows ← execute (codes "SHOW SCHEMAS FROM " ++ catalog_name)
      ok (first_column_values rows)

    unfoldable pub get_tables : Text → Text → Result (List Text)
    unfolding first_column_values quote_identifier_path
    get_tables catalog schema = do
      namespace ← quote_identifier_path (catalog ++ b'.' ∷ schema)
      rows ← execute (codes "SHOW TABLES FROM " ++ namespace)
      ok (first_column_values rows)

    unfoldable pub get_columns : Text → Text → Text → Result (List TrinoColumn)
    unfolding trino_columns quote_identifier_path
    get_columns catalog schema table = do
      table_name ← quote_identifier_path (catalog ++ b'.' ∷ (schema ++ b'.' ∷ table))
      rows ← execute (codes "SHOW COLUMNS FROM " ++ table_name)
      trino_columns rows
