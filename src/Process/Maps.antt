-- ===== src/Process/Maps.antt =====
-- The account map of the process, from its startup on.
use data_api.Prelude.{sym, ap, ◌∙◌, ℕ, Option, none, some, List, [], ◌∷◌, ◌≡◌, refl}
use data_api.Errors.{ok, Result}
use data_api.Pii.AccountMap.{AccountMapInMemory}
use data_api.Pii.Repository.{Session}
use data_api.Pii.Snapshot.{run_pii_cache_sync_loop, elapsed}
use data_api.Pii.Snapshot.Sync.{
  Extends, Extends-refl, Extends-trans, run_pii_cache_sync_loop-Extends,
}
use data_api.Pii.Startup.{initialize_account_map_in_memory}
use data_api.Process.{
  with_map, Process, Call, get_trino_client, testing, making, reading, returned, sync_round,
  startup, Serves, start, called, switch, step, synced, map_or_init, get_account_map_in_memory,
}

account_map-get_trino_client :
    (c : Call) (p : Process) → (get_trino_client c p).1.account_map ≡ p.account_map
unfolding get_trino_client
account_map-get_trino_client testing p = refl
account_map-get_trino_client making p = refl
account_map-get_trino_client reading p = refl
account_map-get_trino_client (returned c) p = refl

module _ (batch_size fuel : ℕ) where
  Serves-Extends :
      {v p : Process} {cs : List Call} (m : AccountMapInMemory)
      → v.account_map ≡ some m
      → Serves batch_size fuel v cs p
      → (n : AccountMapInMemory) × (p.account_map ≡ some n) × Extends m n
  unfolding sync_round get_account_map_in_memory
  Serves-Extends m h start = (m, h, Extends-refl m)
  Serves-Extends m h (called s) = Serves-Extends m h s
  Serves-Extends m h (switch s) = Serves-Extends m h s
  Serves-Extends m h (step {c} {cs} {p} s) =
      let (n, e, x) = Serves-Extends m h s in (n, account_map-get_trino_client c p ∙ e, x)
  Serves-Extends m h (synced {cs} {p} execute s) =
      let (n, e, x) = Serves-Extends m h s in
      (
        run_pii_cache_sync_loop batch_size fuel (elapsed execute ∷ []) n,
        ap
            (λ o.
              some (run_pii_cache_sync_loop batch_size fuel (elapsed execute ∷ []) (map_or_init o)))
            e,
        Extends-trans x (run_pii_cache_sync_loop-Extends batch_size fuel (elapsed execute ∷ []) n),
      )

  -- of a startup's outcome
  abbrev map_of : Option (Result (ℕ × ℕ) × Process) → Option AccountMapInMemory
  map_of none = none
  map_of (some (r, p)) = p.account_map

  with_map-map :
      (o : Option (Result (ℕ × ℕ) × AccountMapInMemory)) (q v : Process) (r : Result (ℕ × ℕ))
      → with_map batch_size fuel o q ≡ some (r, v)
      → (m : AccountMapInMemory) × (o ≡ some (r, m)) × (v.account_map ≡ some m)
  with_map-map none q v r e = cc
  with_map-map (some (r', m)) q v r e =
      (m, ap (λ x. some (x, m)) (ap result_of e), sym (ap map_of e))
    where
      result_of : Option (Result (ℕ × ℕ) × Process) → Result (ℕ × ℕ)
      result_of none = r'
      result_of (some (x, p)) = x

  -- Once the startup has returned, whatever requests and rounds of the background task come, in whatever order and
  -- with whatever outcome, the process has one account map, which holds every token that the startup loaded, and
  -- whose time stamp is not before that of the startup.
  pub startup-Extends :
      (sessions : ℕ → Session) (max_retries : ℕ) (u v p : Process) (cs : List Call) (loaded : ℕ × ℕ)
      → startup batch_size fuel sessions max_retries u ≡ some (ok loaded, v)
      → Serves batch_size fuel v cs p
      → (m n : AccountMapInMemory) × (initialize_account_map_in_memory sessions batch_size fuel
            max_retries
            (map_or_init u.account_map)
          ≡ some (ok loaded, m))
        × (p.account_map ≡ some n)
        × Extends m n
  unfolding startup get_account_map_in_memory
  startup-Extends sessions max_retries u v p cs loaded e s =
      let (m, made, is_map) = with_map-map _ _ v (ok loaded) e in
      let (n, is_now, extends) = Serves-Extends m is_map s in (m, n, made, is_now, extends)
