-- ===== src/Pii/Startup/Attempts.antt =====
-- What the attempts come to.
use mathlib.Core.Path.{subst, ap₂}
use data_api.Prelude.{
  ◌-◌, ℕ, zero, suc, ◌+◌, ◌≤◌, ◌<◌, ◌≡◌, refl, ap, ◌∙◌, arith, some, List, map, length,
}
use data_api.Errors.{Exc, ok, err}
use data_api.Pii.AccountMap.{AccountMapInMemory, init, add_records, size}
use data_api.Pii.Repository.{Session, AccountRow, to_record}
use data_api.Pii.Snapshot.{load_pii_mapping_snapshot}
use data_api.Pii.Snapshot.Complete.{Serves, snapshot_complete}
use data_api.Pii.Startup.{attempts, initialize_account_map_in_memory}

-- Loading with the session raises, whatever the map holds.
abbrev pub Breaks : Session → ℕ → ℕ → Type 0
Breaks execute batch_size fuel =
    (cache : AccountMapInMemory)
    → (e : Exc) × (cache' : AccountMapInMemory) × (load_pii_mapping_snapshot execute batch_size fuel
          cache
        ≡ some (err e, cache'))

-- An equation of numbers, with its sides written out.
named_eq : (a b : ℕ) → a ≡ b → a ≡ b
named_eq a b h = h

module _ (sessions : ℕ → Session) (batch_size fuel : ℕ) where
  step_broken :
      (remaining attempt : ℕ) (cache : AccountMapInMemory) (e : Exc) (cache' : AccountMapInMemory)
      → load_pii_mapping_snapshot (sessions attempt) batch_size fuel cache ≡ some (err e, cache')
      → attempts sessions batch_size fuel (suc remaining) attempt cache
        ≡ attempts sessions batch_size fuel remaining (attempt + 1) cache'
  unfolding attempts
  step_broken remaining attempt cache e cache' h = rw (h, attempts) refl

  step_loaded :
      (remaining attempt : ℕ) (cache : AccountMapInMemory) (n : ℕ) (cache' : AccountMapInMemory)
      → load_pii_mapping_snapshot (sessions attempt) batch_size fuel cache ≡ some (ok n, cache')
      → attempts sessions batch_size fuel (suc remaining) attempt cache
        ≡ some (ok (n, size cache'), cache')
  unfolding attempts
  step_loaded remaining attempt cache n cache' h = rw (h, attempts) refl

  -- `n` attempts that break, and what follows them.
  attempts_broken :
      (n remaining attempt : ℕ) (cache : AccountMapInMemory)
      → n ≤ remaining
      → ((i : ℕ) → i < n → Breaks (sessions (attempt + i)) batch_size fuel)
      → (cache' : AccountMapInMemory) × (attempts sessions batch_size fuel remaining attempt cache
          ≡ attempts sessions batch_size fuel (remaining - n) (attempt + n) cache')
  attempts_broken zero remaining attempt cache h broken = (
    cache,
    ap₂ (λ r a. attempts sessions batch_size fuel r a cache)
        (named_eq remaining (remaining - 0) (omega arith))
        (named_eq attempt (attempt + 0) (omega arith)),
  )
  attempts_broken (suc n) zero attempt cache h broken = absurd (omega arith)
  attempts_broken (suc n) (suc remaining) attempt cache h broken =
      let first : Breaks (sessions attempt) batch_size fuel =
        subst (λ a. Breaks (sessions a) batch_size fuel)
          (named_eq (attempt + 0) attempt (omega arith)) (broken 0 (omega arith)) in
      let (e, cache', breaks) = first cache in
      let (cache'', rest) =
        attempts_broken n remaining (attempt + 1) cache' (omega arith) (λ i below.
          subst (λ a. Breaks (sessions a) batch_size fuel)
            (named_eq (attempt + suc i) (attempt + 1 + i) (omega arith))
            (broken (suc i) (omega arith))) in
      (
        cache'',
        step_broken remaining attempt cache e cache' breaks
            ∙ rest
            ∙ ap₂ (λ r a. attempts sessions batch_size fuel r a cache'')
                (named_eq (remaining - n) (suc remaining - suc n) (omega arith))
                (named_eq (attempt + 1 + n) (attempt + suc n) (omega arith)),
      )

  -- Where the first `n` attempts break, the next serves these rows, and it is allowed, startup returns the
  -- number of rows and of tokens, and the map is what adding the rows to an empty one gives: the attempts
  -- that broke leave no trace. The batch size is positive, and there is more fuel than rows.
  pub initialize_recovers :
      (n max_retries : ℕ) (rows : List AccountRow) (cache : AccountMapInMemory)
      → n < max_retries
      → ((i : ℕ) → i < n → Breaks (sessions (1 + i)) batch_size fuel)
      → Serves (sessions (1 + n)) rows
      → 0 < batch_size
      → length rows < fuel
      → initialize_account_map_in_memory sessions batch_size fuel max_retries cache
        ≡ some (
          ok (length rows, size (add_records init (map to_record rows))),
          add_records init (map to_record rows),
        )
  unfolding initialize_account_map_in_memory
  initialize_recovers n max_retries rows cache allowed broken serves positive enough =
      let (cache', rest) = attempts_broken n max_retries 1 cache (omega arith) broken in
      rest
      ∙ ap (λ r. attempts sessions batch_size fuel r (1 + n) cache')
          (named_eq (max_retries - n) (suc (max_retries - n - 1)) (omega arith))
      ∙ step_loaded (max_retries - n - 1) (1 + n) cache' (length rows)
          (add_records init (map to_record rows))
          (snapshot_complete (sessions (1 + n)) rows batch_size fuel cache' serves positive enough)
