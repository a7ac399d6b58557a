-- ===== src/Tests/Process.antt =====
-- A process that starts at the second attempt, and calls of `get_trino_client` one after the other and at once.
use data_api.Prelude.{none, some, [], ◌∷◌, map, ◌≡◌, refl, ap, All}
use data_api.Errors.{ok}
use data_api.Pii.AccountMap.{AccountMapInMemory, init, add_records, size}
use data_api.Pii.Repository.{to_record}
use data_api.Pii.Snapshot.Sync.{Extends}
use data_api.Pii.Startup.{initialize_account_map_in_memory}
use data_api.Process.{
  Process, Call, imported, testing, making, reading, returned, get_trino_client, call,
  close_trino_client, startup, sync_round, Serves, start, called, switch, step, synced, map_or_init,
  with_map,
}
use data_api.Process.Clients.{IsOf, call-close_trino_client}
use data_api.Process.Maps.{startup-Extends}
use data_api.Tests.Pii.{rows, serve}
use data_api.Tests.Startup.{sessions, initialize_recovers_example}

abbrev started : Process
started = record imported { account_map = some (add_records init (map to_record rows)) }

starts :
    startup 2 4 sessions 3 imported
    ≡ some (ok (3, size (add_records init (map to_record rows))), started)
unfolding startup data_api.Process.get_account_map_in_memory
starts =
    ap (λ o. with_map 2 4 o (record imported { account_map = some init }))
      initialize_recovers_example

-- a request, and then a round of the background task
served : Serves 2 4 started (returned (some 0) ∷ []) (sync_round 2 4 serve (call started).1)
unfolding call get_trino_client
served = synced serve (step (step (step (called start))))

startup-Extends_example :
    (m n : AccountMapInMemory) × (initialize_account_map_in_memory sessions 2 4 3 init
      ≡ some (ok (3, size (add_records init (map to_record rows))), m))
    × ((sync_round 2 4 serve (call started).1).account_map ≡ some n)
    × Extends m n
startup-Extends_example =
    startup-Extends 2 4 sessions 3 imported started (sync_round 2 4 serve (call started).1)
      (returned (some 0) ∷ []) (3, size (add_records init (map to_record rows))) starts served

second : Serves 2 4 (call started).1 (returned (some 0) ∷ []) (call started).1
unfolding call get_trino_client
second = step (step (called start))

call-close_trino_client_example :
    ((call started).0 ≡ some 0)
    × All (IsOf 0) (returned (some 0) ∷ [])
    × ((call started).1.created ≡ 1)
    × ((close_trino_client (call started).1).trino_client ≡ none)
    × ((close_trino_client (call started).1).closed ≡ 0 ∷ [])
call-close_trino_client_example =
    call-close_trino_client 2 4 started (call started).1 (returned (some 0) ∷ []) refl second

-- two first calls at once, each of which tests before the other assigns
abbrev raced : Process
raced = record imported { trino_client = some 1; created = 2 }

races : Serves 2 4 imported (reading ∷ reading ∷ []) raced
unfolding get_trino_client
races = step (switch (step (switch (step (switch (step (called (called start))))))))

-- of the two clients, one is never closed
races-closed : (close_trino_client raced).closed ≡ 1 ∷ []
unfolding close_trino_client
races-closed = refl
