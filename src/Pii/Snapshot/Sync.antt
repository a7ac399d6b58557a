-- ===== src/Pii/Snapshot/Sync.antt =====
-- What the background loop keeps, whatever the sessions return or raise, and what it never loads.
use data_api.Prelude.{
  ℕ, zero, suc, ◌+◌, ◌≡◌, ◌<◌, ◌≤◌, refl, true, false, Option, none, some, List, [], ◌∷◌, map,
  arith, All, length, ◌∙◌, ltb, inl, inr, Bool-cases,
}
use data_api.Text.{Text, eq_text, eq_text_iff}
use data_api.Dict.{get}
use data_api.Errors.{Result, ok, err}
use data_api.Pii.AccountMap.{PiiMappingRecord, AccountMapInMemory, add_records}
use data_api.Pii.AccountMap.Laws.{
  latest, get-add_records, NotAfter, NotAfter-trans, last_synced_at-add_records,
}
use data_api.Pii.Repository.{AccountRow, Session, to_record, get_mappings_batch}
use data_api.Pii.Snapshot.{
  Loaded, Round, stop, elapsed, after, load_loop, load_since, load_pii_mapping_incremental,
  run_pii_cache_sync_loop,
}
use data_api.Pii.Snapshot.Complete.{Serves, newer_rows, incremental_complete}

-- The second map holds every token that the first holds, and its time stamp is not before.
pub record Extends (m n : AccountMapInMemory) : Type 0 where
  pub tokens :
      (t v : Text)
      → get m.token_to_value t ≡ some v
      → (w : Text) × (get n.token_to_value t ≡ some w)
  pub stamps : NotAfter m.last_synced_at n.last_synced_at

latest-some :
    (rs : List PiiMappingRecord) (t v : Text) (o : Option Text)
    → o ≡ some v
    → (w : Text) × (latest rs t o ≡ some w)
latest-some [] t v o e = (v, e)
latest-some (r ∷ rs) t v o e = elim (Bool-cases (eq_text r.token t)) [
  | inl same ↦ latest-some rs t r.mapped_value _ (rw same refl)
  | inr other ↦ latest-some rs t v _ (rw other e)
]

pub Extends-refl : (m : AccountMapInMemory) → Extends m m
unfolding add_records
Extends-refl m = record { tokens = λ t v e. (v, e); stamps = (last_synced_at-add_records m []).0 }

pub Extends-trans : {l m n : AccountMapInMemory} → Extends l m → Extends m n → Extends l n
Extends-trans {l} {m} {n} h k = record {
  tokens = λ t v e. let (w, f) = h.tokens t v e in k.tokens t w f;
  stamps = NotAfter-trans l.last_synced_at m.last_synced_at n.last_synced_at h.stamps k.stamps;
}

Extends-add_records :
    (m : AccountMapInMemory) (rs : List PiiMappingRecord) → Extends m (add_records m rs)
Extends-add_records m rs = record {
  tokens = λ t v e.
      let (w, f) = latest-some rs t v (get m.token_to_value t) e in (w, get-add_records m rs t ∙ f);
  stamps = (last_synced_at-add_records m rs).0;
}

after-Extends :
    (o : Option Loaded) (m m' : AccountMapInMemory)
    → Extends m m'
    → Extends m' (after o m')
    → Extends m (after o m)
after-Extends none m m' h k = Extends-refl m
after-Extends (some (r, n)) m m' h k = Extends-trans h k

module _ (execute : Session) (batch_size : ℕ) (since : Option ℕ) where
  load_loop-Extends :
      (fuel loaded offset : ℕ) (m : AccountMapInMemory)
      → Extends m (after (load_loop execute batch_size since fuel loaded offset m) m)
  unfolding load_loop
  load_loop-Extends zero loaded offset m = Extends-refl m
  load_loop-Extends (suc fuel) loaded offset m =
      go (get_mappings_batch execute batch_size offset since) refl (λ r rs.
        load_loop-Extends fuel (loaded + length (r ∷ rs)) (offset + batch_size)
          (add_records m (r ∷ rs)))
    where
      go :
          (batch : Result (List PiiMappingRecord))
          → get_mappings_batch execute batch_size offset since ≡ batch
          → ((r : PiiMappingRecord) (rs : List PiiMappingRecord)
              → Extends (add_records m (r ∷ rs)) (
                  after
                    (load_loop execute batch_size since fuel
                      (loaded + length (r ∷ rs))
                      (offset + batch_size)
                      (add_records m (r ∷ rs)))
                    (add_records m (r ∷ rs))))
          → Extends m (after (load_loop execute batch_size since (suc fuel) loaded offset m) m)
      go (err e) p ih = rw (p, load_loop) (Extends-refl m)
      go (ok []) p ih = rw (p, load_loop) (Extends-refl m)
      go (ok (r ∷ rs)) p ih =
          rw (p, load_loop)
            (after-Extends
              (load_loop execute batch_size since fuel (loaded + length (r ∷ rs))
                (offset + batch_size) (add_records m (r ∷ rs)))
              m (add_records m (r ∷ rs)) (Extends-add_records m (r ∷ rs)) (ih r rs))

load_since-Extends :
    (execute : Session) (batch_size fuel : ℕ) (m : AccountMapInMemory) (since : Option ℕ)
    → Extends m (after (load_since execute batch_size fuel m since) m)
unfolding load_since
load_since-Extends execute batch_size fuel m none = Extends-refl m
load_since-Extends execute batch_size fuel m (some since) =
    load_loop-Extends execute batch_size (some since) fuel 0 0 m

-- Whatever the sessions return or raise in each round, the background loop loses no token and never
-- moves the time stamp back.
pub run_pii_cache_sync_loop-Extends :
    (batch_size fuel : ℕ) (rounds : List Round) (m : AccountMapInMemory)
    → Extends m (run_pii_cache_sync_loop batch_size fuel rounds m)
unfolding run_pii_cache_sync_loop
run_pii_cache_sync_loop-Extends batch_size fuel [] m = Extends-refl m
run_pii_cache_sync_loop-Extends batch_size fuel (stop ∷ rounds) m = Extends-refl m
run_pii_cache_sync_loop-Extends batch_size fuel (elapsed execute ∷ rounds) m =
    Extends-trans
      (unfold load_pii_mapping_incremental in
        load_since-Extends execute batch_size fuel m m.last_synced_at)
      (run_pii_cache_sync_loop-Extends batch_size fuel rounds _)

-- Of rows that all stand at or before a time, a token is in none of the newer rows.
latest_untouched :
    (since : ℕ) (t : Text) (o : Option Text) (rows : List AccountRow)
    → All (λ r. r.customer_id ≡ t → r.created_at ≤ since) rows
    → latest (map to_record (newer_rows (some since) rows)) t o ≡ o
unfolding newer_rows to_record
latest_untouched since t o [] h = refl
latest_untouched since t o (r ∷ rs) (first, h) = elim (Bool-cases (ltb since r.created_at)) [
  | inl new ↦ rw new (rw (differs new, latest) (latest_untouched since t o rs h))
  | inr old ↦ rw old (latest_untouched since t o rs h)
]
  where
    differs : ltb since r.created_at ≡ true → eq_text r.customer_id t ≡ false
    differs new = ground (arith, first, eq_text_iff r.customer_id t)

-- With a positive batch size, a database that serves these rows and fuel enough: where every row of a
-- token is stamped at or before the map's time stamp, the incremental load leaves what the map says
-- of the token as it was. So a row that is committed later with the very time stamp of the last one
-- loaded is not picked up.
pub incremental_misses_ties :
    (execute : Session) (rows : List AccountRow) (batch_size fuel since : ℕ) (t : Text)
    (cache : AccountMapInMemory)
    → Serves execute rows
    → 0 < batch_size
    → cache.last_synced_at ≡ some since
    → length (newer_rows (some since) rows) < fuel
    → All (λ r. r.customer_id ≡ t → r.created_at ≤ since) rows
    → get
        (after (load_pii_mapping_incremental execute batch_size fuel cache) cache).token_to_value
        t
      ≡ get cache.token_to_value t
incremental_misses_ties execute rows batch_size fuel since t cache serves pos e h ties =
    rw (incremental_complete execute rows batch_size fuel since cache serves pos e h) (
      get-add_records cache (map to_record (newer_rows (some since) rows)) t
      ∙ latest_untouched since t (get cache.token_to_value t) rows ties)
