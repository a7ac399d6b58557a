-- ===== src/Pii/Snapshot/Complete.antt =====
-- The loops load every row, each once.
use Prim.Native.Nat.add
use mathlib.Core.List.{map-append}
use mathlib.Core.Path.{ap₂}
use data_api.Prelude.{
  ℕ, zero, suc, ◌+◌, ◌≡◌, ◌<◌, refl, sym, ap, Option, none, some, List, [], ◌∷◌, ◌++◌, map, arith,
  length, take, drop, keep, ltb, ◌∙◌, length-drop, length-append,
}
use data_api.Errors.{ok}
use data_api.Pii.AccountMap.{AccountMapInMemory, init, add_records}
use data_api.Pii.AccountMap.Laws.{add_records-append}
use data_api.Pii.Repository.{AccountRow, Session, to_record, mappings_statement, get_mappings_batch}
use data_api.Pii.Snapshot.{
  load_loop, load_since, load_pii_mapping_snapshot, load_pii_mapping_incremental,
}

-- The rows newer than a time, or all of them.
unfoldable pub newer_rows : Option ℕ → List AccountRow → List AccountRow
newer_rows none rows = rows
newer_rows (some t) rows = keep (λ r. ltb t r.created_at) rows

-- The database holds these rows, in the order of the statement, while the loop runs: a statement
-- with a limit and an offset returns that window of them.
abbrev pub Serves : Session → List AccountRow → Type 0
Serves execute rows =
    (limit offset : ℕ) (since : Option ℕ)
    → execute (mappings_statement limit offset since)
      ≡ ok (take limit (drop offset (newer_rows since rows)))

take-drop {ℓ} : {A : Type ℓ} (n : ℕ) (xs : List A) → take n xs ++ drop n xs ≡ xs
take-drop zero xs = refl
take-drop (suc n) [] = refl
take-drop (suc n) (x ∷ xs) = ap (λ t. x ∷ t) (take-drop n xs)

drop-nil {ℓ} : {A : Type ℓ} (n : ℕ) → drop {A = A} n [] ≡ []
drop-nil zero = refl
drop-nil (suc n) = refl

drop-drop {ℓ} : {A : Type ℓ} (m n : ℕ) (xs : List A) → drop n (drop m xs) ≡ drop (m + n) xs
drop-drop zero n xs = ap (λ k. drop k xs) (sym (add.zero n))
drop-drop (suc m) n [] = drop-nil n ∙ sym (drop-nil (suc m + n))
drop-drop (suc m) n (x ∷ xs) = drop-drop m n xs ∙ ap (λ k. drop k (x ∷ xs)) (sym (add.suc m n))

get_mappings_batch-Serves :
    (execute : Session) (rows : List AccountRow) (limit offset : ℕ) (since : Option ℕ)
    → Serves execute rows
    → get_mappings_batch execute limit offset since
      ≡ ok (map to_record (take limit (drop offset (newer_rows since rows))))
unfolding get_mappings_batch
get_mappings_batch-Serves execute rows limit offset since h = rw h

length-map {ℓ κ} :
    {A : Type ℓ} {B : Type κ} (f : A → B) (xs : List A) → length (map f xs) ≡ length xs
length-map f [] = refl
length-map f (x ∷ xs) = ap suc (length-map f xs)

loaded_count :
    (b : ℕ) (y : AccountRow) (ys : List AccountRow) (loaded : ℕ)
    → loaded + suc (length (map to_record (take b ys))) + length (drop b ys)
      ≡ loaded + length (y ∷ ys)
loaded_count b y ys loaded = omega (
  arith,
  length-map to_record (take b ys),
  length-append (take b ys) (drop b ys),
  ap length (take-drop b ys),
)

added_all :
    (cache : AccountMapInMemory) (b : ℕ) (y : AccountRow) (ys : List AccountRow)
    → add_records
        (add_records cache (to_record y ∷ map to_record (take b ys)))
        (map to_record (drop b ys))
      ≡ add_records cache (map to_record (y ∷ ys))
added_all cache b y ys =
    sym (add_records-append cache (to_record y ∷ map to_record (take b ys)) _)
    ∙ ap (λ rs. add_records cache (to_record y ∷ rs))
        (sym (map-append to_record (take b ys) (drop b ys)) ∙ ap (map to_record) (take-drop b ys))

module _ (execute : Session) (rows : List AccountRow) (b : ℕ) (since : Option ℕ)
    (serves : Serves execute rows) where
  abbrev source : List AccountRow
  source = newer_rows since rows

  -- the loop from any offset, with fuel for the rows that are left
  load_loop-rest :
      (fuel loaded offset : ℕ) (cache : AccountMapInMemory) (rest : List AccountRow)
      → drop offset source ≡ rest
      → length rest < fuel
      → load_loop execute (suc b) since fuel loaded offset cache
        ≡ some (ok (loaded + length rest), add_records cache (map to_record rest))
  unfolding load_loop add_records
  load_loop-rest zero loaded offset cache rest e h = elim h [ ]
  load_loop-rest (suc fuel) loaded offset cache [] e h =
      rw (get_mappings_batch-Serves execute rows (suc b) offset since serves, load_loop)
        (rw e (ap₂ (λ n c. some (ok n, c)) (omega arith) refl))
  load_loop-rest (suc fuel) loaded offset cache (y ∷ ys) e h =
      rw (get_mappings_batch-Serves execute rows (suc b) offset since serves, load_loop)
        (rw e (
          load_loop-rest fuel (loaded + suc (length (map to_record (take b ys)))) (offset + suc b)
            (add_records cache (to_record y ∷ map to_record (take b ys))) (drop b ys)
            (sym (drop-drop offset (suc b) source) ∙ ap (drop (suc b)) e)
            (omega (arith, length-drop b ys))
          ∙ ap₂ (λ n c. some (ok n, c)) (loaded_count b y ys loaded) (added_all cache b y ys)))

  -- With a positive batch size and more fuel than rows, every row is loaded once, in order.
  load_loop-all :
      (fuel : ℕ) (cache : AccountMapInMemory)
      → length source < fuel
      → load_loop execute (suc b) since fuel 0 0 cache
        ≡ some (ok (length source), add_records cache (map to_record source))
  load_loop-all fuel cache h =
      load_loop-rest fuel 0 0 cache source refl h ∙ ap₂ (λ n c. some (ok n, c)) (omega arith) refl

-- With a positive batch size, a database that serves these rows and more fuel than rows, the
-- snapshot returns the number of rows, and the map holds exactly what adding the rows in order to an
-- empty map gives.
pub snapshot_complete :
    (execute : Session) (rows : List AccountRow) (batch_size fuel : ℕ) (cache : AccountMapInMemory)
    → Serves execute rows
    → 0 < batch_size
    → length rows < fuel
    → load_pii_mapping_snapshot execute batch_size fuel cache
      ≡ some (ok (length rows), add_records init (map to_record rows))
unfolding load_pii_mapping_snapshot newer_rows
snapshot_complete execute rows (suc b) fuel cache serves pos h =
    load_loop-all execute rows b none serves fuel init h
snapshot_complete execute rows zero fuel cache serves pos h = elim pos [ ]

-- From a map whose time stamp is `since`, with a positive batch size, a database that serves these
-- rows and more fuel than newer rows, the incremental load adds, in order, exactly the rows that are
-- newer than `since`, and returns their number.
pub incremental_complete :
    (execute : Session) (rows : List AccountRow) (batch_size fuel since : ℕ)
    (cache : AccountMapInMemory)
    → Serves execute rows
    → 0 < batch_size
    → cache.last_synced_at ≡ some since
    → length (newer_rows (some since) rows) < fuel
    → load_pii_mapping_incremental execute batch_size fuel cache
      ≡ some (
        ok (length (newer_rows (some since) rows)),
        add_records cache (map to_record (newer_rows (some since) rows)),
      )
unfolding load_pii_mapping_incremental
incremental_complete execute rows (suc b) fuel since cache serves pos e h =
    ap (load_since execute (suc b) fuel cache) e
    ∙ load_loop-all execute rows b (some since) serves fuel cache h
incremental_complete execute rows zero fuel since cache serves pos e h = elim pos [ ]
