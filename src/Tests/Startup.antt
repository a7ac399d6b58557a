-- ===== src/Tests/Startup.antt =====
-- The theorems on the account map's start and its specification, at concrete inputs.
use data_api.Prelude.{◌+◌, List, ℕ, ◌<◌, ◌≡◌, refl, arith, some, zero, suc, [], ◌∷◌, map}
use data_api.Text.{codes}
use data_api.Dict.{get}
use data_api.Errors.{ok, err, unexpected}
use data_api.Pii.AccountMap.{clear, init, add_records, size}
use data_api.Pii.AccountMap.Refines.{
  Operation, added, all_added, cleared, synced, apply_all, all_stand_for, get-apply_all,
}
use data_api.Pii.Repository.{Session, to_record}
use data_api.Pii.Snapshot.{load_pii_mapping_snapshot}
use data_api.Pii.Startup.{initialize_account_map_in_memory}
use data_api.Pii.Startup.Attempts.{Breaks, initialize_recovers}
use data_api.Tests.Pii.{rows, serve, serve-Serves, one_record}

abbrev refuse : Session
refuse s = err unexpected

-- The first attempt finds no database.
abbrev pub sessions : ℕ → Session
sessions (suc zero) = refuse
sessions _ = serve

refuse-Breaks : Breaks refuse 2 4
unfolding load_pii_mapping_snapshot data_api.Pii.Repository.get_mappings_batch
refuse-Breaks cache = (unexpected, clear cache, refl)

first-Breaks : (i : ℕ) → i < 1 → Breaks (sessions (1 + i)) 2 4
first-Breaks zero h = refuse-Breaks
first-Breaks (suc i) h = absurd (omega arith)

pub initialize_recovers_example :
    initialize_account_map_in_memory sessions 2 4 3 init
    ≡ some (
      ok (3, size (add_records init (map to_record rows))),
      add_records init (map to_record rows),
    )
initialize_recovers_example =
    initialize_recovers sessions 2 4 1 3 rows init (omega arith) first-Breaks serve-Serves
      (omega arith) (omega arith)

abbrev calls : List Operation
calls = added one_record ∷ synced 9 ∷ cleared ∷ all_added (one_record ∷ []) ∷ []

get-apply_all_example :
    get (apply_all calls init).token_to_value (codes "t1")
    ≡ all_stand_for calls (codes "t1") (get init.token_to_value (codes "t1"))
get-apply_all_example = get-apply_all calls init (codes "t1")
