-- ===== src/Pii/Repository.antt =====
-- app/repositories/sqlalchemy/account_map.py over app/pii_models/account_map.py. The session's
-- `execute` is a parameter: a function from the statement that the repository builds to the rows,
-- or to what the driver raises.
pub mod Batches
use data_api.Prelude.{
  ℕ, ◌≡◌, Bool, true, Option, none, some, List, [], ◌∷◌, map, ltb, keep, take, drop, if◌then◌else◌,
  ◌==◌, length, ◌++◌, is_empty,
}
use data_api.Text.{Text}
use data_api.Dict.{Dict, put}
use data_api.Errors.{Result, ok, err, ◌>>=◌}
use data_api.Pii.AccountMap.{PiiMappingRecord}
use data_api.Text.Sort.{sorted_set}

-- CustomerIdentityPiiMapping, a row of `account_map`
pub record AccountRow : Type 0 where
  pub customer_id : Text
  pub uuid : Text
  pub created_at : ℕ

pub data Column : Type 0 where
  customer_id_column created_at_column : Column

-- The part of a SELECT over `account_map` that the repository varies.
pub record Select : Type 0 where
  pub customer_id_in : Option (List Text)
  pub created_after : Option ℕ
  pub order_by : List Column
  pub limit : Option ℕ
  pub offset : Option ℕ

abbrev pub Session : Type 0
Session = Select → Result (List AccountRow)

-- The record built from one row.
unfoldable pub to_record : AccountRow → PiiMappingRecord
to_record row = record {
  token = row.customer_id;
  mapped_value = row.uuid;
  created_at = some row.created_at;
}

unfoldable pub mappings_statement : ℕ → ℕ → Option ℕ → Select
mappings_statement limit offset since = record {
  customer_id_in = none;
  created_after = since;
  order_by = created_at_column ∷ customer_id_column ∷ [];
  limit = some limit;
  offset = some offset;
}

unfoldable pub get_mappings_batch : Session → ℕ → ℕ → Option ℕ → Result (List PiiMappingRecord)
unfolding mappings_statement
get_mappings_batch execute limit offset since = do
  rows ← execute (mappings_statement limit offset since)
  ok (map to_record rows)

-- The generator `_batches`, with the batch that it is filling.
unfoldable pub fill : ℕ → List Text → List Text → List (List Text)
fill size batch [] = if is_empty batch then [] else batch ∷ []
fill size batch (value ∷ values) =
    let batch' = batch ++ value ∷ [] in
    let full = batch' ∷ fill size [] values in
    let more = fill size batch' values in if length batch' == size then full else more

unfoldable pub batches : List Text → ℕ → List (List Text)
unfolding fill
batches values size = fill size [] values

unfoldable pub add_rows : Dict PiiMappingRecord → List AccountRow → Dict PiiMappingRecord
unfolding to_record
add_rows mappings [] = mappings
add_rows mappings (row ∷ rows) = add_rows (put mappings row.customer_id (to_record row)) rows

unfoldable pub many_statement : List Text → Select
many_statement batch = record {
  customer_id_in = some batch;
  created_after = none;
  order_by = [];
  limit = none;
  offset = none;
}

unfoldable pub get_many_loop :
    Session → Dict PiiMappingRecord → List (List Text) → Result (Dict PiiMappingRecord)
unfolding many_statement add_rows
get_many_loop execute mappings [] = ok mappings
get_many_loop execute mappings (batch ∷ rest) = do
  rows ← execute (many_statement batch)
  get_many_loop execute (add_rows mappings rows) rest

-- `tokens` lists the set in any order
unfoldable pub get_many : Session → ℕ → List Text → Result (Dict PiiMappingRecord)
unfolding get_many_loop batches
get_many execute query_batch_size tokens =
    if is_empty tokens
    then ok []
    else get_many_loop execute [] (batches (sorted_set tokens) query_batch_size)
