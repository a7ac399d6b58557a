-- ===== src/Pii/Snapshot.antt =====
-- app/services/pii_mapping_snapshot.py and app/services/pii_cache_sync.py: loading the account map
-- by batches. The `while True` loops take fuel; `none` means that it ran out. The map comes back
-- beside an exception, since what was added before it stays added.
pub mod Complete
pub mod Sync
use data_api.Prelude.{
  ℕ, zero, suc, ◌+◌, Bool, Option, none, some, List, [], ◌∷◌, is_empty, length, if◌then◌else◌,
}
use data_api.Errors.{Result, ok, err}
use data_api.Pii.AccountMap.{AccountMapInMemory, add_records, clear}
use data_api.Pii.Repository.{Session, get_mappings_batch}

abbrev pub Loaded : Type 0
Loaded = Result ℕ × AccountMapInMemory

-- the `while True` loop of both functions: they differ in `since`
unfoldable pub load_loop : Session → ℕ → Option ℕ → ℕ → ℕ → ℕ → AccountMapInMemory → Option Loaded
load_loop execute batch_size since zero loaded offset cache = none
load_loop execute batch_size since (suc fuel) loaded offset cache =
    elim (get_mappings_batch execute batch_size offset since) [
      | err e ↦ some (err e, cache)
      | ok [] ↦ some (ok loaded, cache)
      | ok (r ∷ rs) ↦
          load_loop execute batch_size since fuel (loaded + length (r ∷ rs)) (offset + batch_size)
            (add_records cache (r ∷ rs))
    ]

unfoldable pub load_pii_mapping_snapshot : Session → ℕ → ℕ → AccountMapInMemory → Option Loaded
unfolding load_loop clear
load_pii_mapping_snapshot execute batch_size fuel cache =
    load_loop execute batch_size none fuel 0 0 (clear cache)

-- the rest of `load_pii_mapping_incremental`, from its `since`
unfoldable pub load_since : Session → ℕ → ℕ → AccountMapInMemory → Option ℕ → Option Loaded
unfolding load_loop
load_since execute batch_size fuel cache none = some (ok 0, cache)
load_since execute batch_size fuel cache (some since) =
    load_loop execute batch_size (some since) fuel 0 0 cache

unfoldable pub load_pii_mapping_incremental : Session → ℕ → ℕ → AccountMapInMemory → Option Loaded
unfolding load_since
load_pii_mapping_incremental execute batch_size fuel cache =
    load_since execute batch_size fuel cache cache.last_synced_at

-- What one round of `run_pii_cache_sync_loop` meets: the stop event, or the end of the interval
-- and a session.
pub data Round : Type 0 where
  stop : Round
  elapsed : Session → Round

abbrev pub after : Option Loaded → AccountMapInMemory → AccountMapInMemory
after none cache = cache
after (some (r, cache')) cache = cache'

-- An exception of a round is logged, and the loop goes on with the map as it is.
unfoldable pub run_pii_cache_sync_loop :
    ℕ → ℕ → List Round → AccountMapInMemory → AccountMapInMemory
unfolding load_pii_mapping_incremental
run_pii_cache_sync_loop batch_size fuel [] cache = cache
run_pii_cache_sync_loop batch_size fuel (stop ∷ rounds) cache = cache
run_pii_cache_sync_loop batch_size fuel (elapsed execute ∷ rounds) cache =
    run_pii_cache_sync_loop batch_size fuel rounds
      (after (load_pii_mapping_incremental execute batch_size fuel cache) cache)
