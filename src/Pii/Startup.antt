-- ===== src/Pii/Startup.antt =====
-- `initialize_account_map_in_memory` of app/dependencies/services.py: the attempts to load the account
-- map at startup, each with a session of its own. `none` means that the fuel of a load ran out.
pub mod Attempts
use data_api.Prelude.{ℕ, zero, suc, ◌+◌, Option, none, some}
use data_api.Errors.{Result, ok, err, runtime_error}
use data_api.Pii.AccountMap.{AccountMapInMemory, size}
use data_api.Pii.Repository.{Session}
use data_api.Pii.Snapshot.{load_pii_mapping_snapshot}

abbrev pub Initialized : Type 0
Initialized = Result (ℕ × ℕ) × AccountMapInMemory

module _ (sessions : ℕ → Session) (batch_size fuel : ℕ) where
  -- the loop, from `attempt` on, with `remaining` attempts left
  unfoldable pub attempts : ℕ → ℕ → AccountMapInMemory → Option Initialized
  unfolding load_pii_mapping_snapshot size
  attempts zero attempt cache = some (err runtime_error, cache)
  attempts (suc remaining) attempt cache =
      elim (load_pii_mapping_snapshot (sessions attempt) batch_size fuel cache) [
        | none ↦ none
        | some loaded ↦ elim loaded.0 [
          | ok n ↦ some (ok (n, size loaded.1), loaded.1)
          | err e ↦ attempts remaining (attempt + 1) loaded.1
        ]
      ]

  unfoldable pub initialize_account_map_in_memory : ℕ → AccountMapInMemory → Option Initialized
  unfolding attempts
  initialize_account_map_in_memory max_retries cache = attempts max_retries 1 cache
