-- ===== src/Process.antt =====
-- The process of the service: the module variables of app/dependencies/services.py, and `lifespan` of
-- app/main.py. FastAPI runs `get_trino_client`, a plain function, in a pool of threads, so that a switch
-- can come between its lines; the account map's variable is set at startup, before there are requests.
pub mod Clients
pub mod Maps
use data_api.Prelude.{ℕ, ◌+◌, Option, none, some, List, [], ◌∷◌, ◌++◌}
use data_api.Errors.{Result, ok, err}
use data_api.Pii.AccountMap.{AccountMapInMemory, init}
use data_api.Pii.Repository.{Session}
use data_api.Pii.Snapshot.{run_pii_cache_sync_loop, elapsed}
use data_api.Pii.Startup.{initialize_account_map_in_memory}

-- `_account_map_in_memory` and `_trino_client`, a client being the number of its creation; how many clients
-- there have been, and those that `close` was called on.
pub record Process : Type 0 where
  pub account_map : Option AccountMapInMemory
  pub trino_client : Option ℕ
  pub created : ℕ
  pub closed : List ℕ

-- the modules as they are imported
abbrev pub imported : Process
imported = record { account_map = none; trino_client = none; created = 0; closed = [] }

abbrev pub map_or_init : Option AccountMapInMemory → AccountMapInMemory
map_or_init none = init
map_or_init (some m) = m

unfoldable pub get_account_map_in_memory : Process → AccountMapInMemory × Process
get_account_map_in_memory p =
    let m = map_or_init p.account_map in (m, record p { account_map = some m })

-- A call of `get_trino_client`: before the test of the variable, before the assignment, before the
-- `return`, and when it has returned.
pub data Call : Type 0 where
  testing making reading : Call
  returned : Option ℕ → Call

abbrev pub tested : Option ℕ → Call
tested none = making
tested (some c) = reading

-- what a call does before the next switch
unfoldable pub get_trino_client : Call → Process → Call × Process
get_trino_client testing p = (tested p.trino_client, p)
get_trino_client making p =
    (reading, record p { trino_client = some p.created; created = p.created + 1 })
get_trino_client reading p = (returned p.trino_client, p)
get_trino_client (returned c) p = (returned c, p)

abbrev pub close_client : Option ℕ → Process → Process
close_client none p = p
close_client (some c) p = record p { trino_client = none; closed = c ∷ p.closed }

unfoldable pub close_trino_client : Process → Process
close_trino_client p = close_client p.trino_client p

module _ (batch_size fuel : ℕ) where
  -- a round of the background task, on the map of the variable
  unfoldable pub sync_round : Session → Process → Process
  unfolding get_account_map_in_memory run_pii_cache_sync_loop
  sync_round execute p =
      let (m, p') = get_account_map_in_memory p in
      record p' {
        account_map = some (run_pii_cache_sync_loop batch_size fuel (elapsed execute ∷ []) m);
      }

  abbrev pub with_map :
      Option (Result (ℕ × ℕ) × AccountMapInMemory) → Process → Option (Result (ℕ × ℕ) × Process)
  with_map none p = none
  with_map (some (r, m)) p = some (r, record p { account_map = some m })

  -- `lifespan` up to its `yield`: an exception ends the startup; `none` is a load that ran out of fuel
  unfoldable pub startup : (ℕ → Session) → ℕ → Process → Option (Result (ℕ × ℕ) × Process)
  unfolding get_account_map_in_memory initialize_account_map_in_memory
  startup sessions max_retries p =
      let (m, p') = get_account_map_in_memory p in
      with_map (initialize_account_map_in_memory sessions batch_size fuel max_retries m) p'

  -- What the process can come to, with the calls in it: calls start, run and are switched, and the
  -- background task does its rounds.
  pub data Serves (v : Process) : List Call → Process → Type 0 where
    start : Serves v [] v
    called : {cs : List Call} {p : Process} → Serves v cs p → Serves v (testing ∷ cs) p
    switch :
        {c : Call} {cs : List Call} {p : Process} → Serves v (c ∷ cs) p → Serves v (cs ++ c ∷ []) p
    step :
        {c : Call} {cs : List Call} {p : Process}
        → Serves v (c ∷ cs) p
        → Serves v ((get_trino_client c p).0 ∷ cs) (get_trino_client c p).1
    synced :
        {cs : List Call} {p : Process} (execute : Session)
        → Serves v cs p
        → Serves v cs (sync_round execute p)

-- a call that runs to its end alone
unfoldable pub call : Process → Option ℕ × Process
unfolding get_trino_client
call p =
    let (c1, p1) = get_trino_client testing p in
    let (c2, p2) = get_trino_client c1 p1 in
    let (c3, p3) = get_trino_client c2 p2 in (result c3, p3)
  where
    result : Call → Option ℕ
    result testing = none
    result making = none
    result reading = none
    result (returned c) = c
