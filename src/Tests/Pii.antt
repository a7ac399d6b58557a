-- ===== src/Tests/Pii.antt =====
-- The theorems on the account map, its loading and the mapped rows, at concrete inputs.
use data_api.Prelude.{
  true, any, inr, ap, inl, Bool-cases, sym, refl, drop, arith, ℕ, take, none, map, [], ◌≡◌, ◌∷◌,
  some, Option, List,
}
use data_api.Text.{eq_text, codes, Text}
use data_api.Dict.{get, Dict}
use data_api.Errors.{ok}
use data_api.Pii.AccountMap.{PiiMappingRecord, AccountMapInMemory, init, add_records}
use data_api.Pii.AccountMap.Laws.{IsInverse, Agrees}
use data_api.Pii.Mapper.{map_pii_fields}
use data_api.Pii.Mapper.Laws.{IsRuled, Pairs, missed_in_rows, map_pii_fields_lem, ruled-IsMapped}
use data_api.Pii.Repository.{AccountRow, Session, to_record, mappings_statement, batches}
use data_api.Pii.Rules.{QuerySpec, transform_by_token_length, users_pii_rules, pii_columns}
use data_api.Pii.Rules.Laws.{IsMapped, transform_by_token_length-str}
use data_api.Pii.Services.{DeeplinkRequest, deeplink_1_spec, deeplink_2_spec, deeplink_2}
use data_api.Pii.Services.Filter.{restricts, deeplink_spec-restricts}
use data_api.Pii.Snapshot.{load_pii_mapping_snapshot, load_pii_mapping_incremental, after}
use data_api.Pii.Snapshot.Complete.{Serves, newer_rows, snapshot_complete}
use data_api.Pii.Snapshot.Sync.{incremental_misses_ties}
use data_api.Tests.Samples.{runtime, token, cache, row}
use data_api.Text.Sort.{elem}
use data_api.Value.{null, Value, str}

abbrev pub rows : List AccountRow
rows =
    record { customer_id = codes "t1"; uuid = codes "v1"; created_at = 5 }
    ∷ record { customer_id = codes "t2"; uuid = codes "v2"; created_at = 6 }
    ∷ record { customer_id = codes "t3"; uuid = codes "v3"; created_at = 6 }
    ∷ []

abbrev or_zero : Option ℕ → ℕ
or_zero none = 0
or_zero (some n) = n

abbrev pub serve : Session
serve s = ok (take (or_zero s.limit) (drop (or_zero s.offset) (newer_rows s.created_after rows)))

pub serve-Serves : Serves serve rows
unfolding mappings_statement
serve-Serves limit offset since = refl

abbrev pub one_record : PiiMappingRecord
one_record = record { token = codes "t1"; mapped_value = codes "v1"; created_at = some 5 }

abbrev synced : AccountMapInMemory
synced = record {
  token_to_value = (codes "t1", codes "v1") ∷ [];
  value_to_token = (codes "v1", codes "t1") ∷ [];
  last_synced_at = some 5;
}

abbrev synced_cache : AccountMapInMemory
synced_cache = record synced { token_to_value = cache }

abbrev synced_to_the_last : AccountMapInMemory
synced_to_the_last = record synced { last_synced_at = some 6 }

-- two batches of two rows, and an empty one
loads_three :
    load_pii_mapping_snapshot serve 2 4 init ≡ some (ok 3, add_records init (map to_record rows))
unfolding load_pii_mapping_snapshot data_api.Pii.Repository.get_mappings_batch newer_rows
    add_records to_record
loads_three = refl

snapshot_complete_example :
    load_pii_mapping_snapshot serve 2 4 init ≡ some (ok 3, add_records init (map to_record rows))
snapshot_complete_example =
    snapshot_complete serve rows 2 4 init serve-Serves (omega arith) (omega arith)

incremental_misses_ties_example :
    get
      (after
        (load_pii_mapping_incremental serve 2 4 synced_to_the_last)
        synced_to_the_last).token_to_value
      (codes "t3")
    ≡ none
unfolding newer_rows get data_api.Text.eq_text
incremental_misses_ties_example =
    incremental_misses_ties serve rows 2 4 6 (codes "t3") synced_to_the_last serve-Serves
      (omega arith) refl (omega arith)
      (λ e. omega arith, (λ e. omega arith, (λ e. omega arith, tt)))

init-IsInverse : IsInverse init
unfolding get
init-IsInverse = record { forth = λ t v h. cc; back = λ t v h. cc }

init-Agrees : Agrees init one_record
unfolding get
init-Agrees = record { of_token = λ v h. cc; of_value = λ t h. cc }

abbrev three_tokens : List Text
three_tokens = codes "a" ∷ codes "b" ∷ codes "c" ∷ []

abbrev spec : QuerySpec Text
spec = record {
  route_name = codes "data.users";
  statement = [];
  column_pii_rules = users_pii_rules runtime;
}

map_pii_fields_example :
    (rows' : List (Dict Value)) × (map_pii_fields cache (row ∷ []) spec
      ≡ ok (rows', missed_in_rows cache spec.column_pii_rules (row ∷ [])))
    × Pairs (IsRuled cache spec.column_pii_rules) (row ∷ []) rows'
unfolding pii_columns users_pii_rules elem
map_pii_fields_example = map_pii_fields_lem cache (row ∷ []) spec (refl, tt) refl

abbrev mapped_row : Dict Value
mapped_row = (codes "customer_id", str (codes "C1")) ∷ (codes "n", null) ∷ []

ruled-IsMapped_example : IsMapped cache (str (codes "C1"))
unfolding get users_pii_rules data_api.Text.eq_text
ruled-IsMapped_example =
    ruled-IsMapped runtime cache spec.column_pii_rules row mapped_row (codes "customer_id")
      (str (codes "C1")) row-IsRuled refl refl
  where
    mapped : str (codes "C1") ≡ transform_by_token_length runtime (str token) cache
    mapped = sym (transform_by_token_length-str runtime token [] cache refl (omega arith))

    row-IsRuled : IsRuled cache spec.column_pii_rules row mapped_row
    row-IsRuled j = elim (Bool-cases (eq_text (codes "customer_id") j)) [
      | inl same ↦ rw same (ap some mapped)
      | inr other ↦ rw other refl
    ]

abbrev deeplink_request : DeeplinkRequest
deeplink_request = record {
  start_date = 1;
  end_date = 2;
  limit = none;
  segmentation_filters = [];
  user_agent_filters = [];
  customer_ids = codes "V1" ∷ codes "v9" ∷ [];
}

deeplink_spec-restricts_example :
    (any restricts (deeplink_1_spec runtime synced deeplink_request).statement.conditions ≡ true)
    × (any restricts (deeplink_2_spec runtime synced deeplink_request).statement.conditions ≡ true)
deeplink_spec-restricts_example = deeplink_spec-restricts runtime synced deeplink_request refl

-- the rows of the client are mapped
deeplink_maps :
    deeplink_2 runtime synced_cache
      (λ s. ok (((codes "accountid", str token) ∷ []) ∷ []))
      deeplink_request
    ≡ ok (((codes "accountid", str (codes "C1")) ∷ []) ∷ [], [])
unfolding deeplink_2 map_pii_fields get eq_text data_api.Dict.put transform_by_token_length
deeplink_maps = refl
