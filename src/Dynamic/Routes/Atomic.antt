-- ===== src/Dynamic/Routes/Atomic.antt =====
-- The methods that write are atomic: all of a method's change is committed, or none.
use data_api.Prelude.{
  ℕ, ◌≡◌, refl, ◌∙◌, Bool, true, false, Option, none, some, List, Bool-cases, inl, inr,
}
use data_api.Text.{Text}
use data_api.Dict.{Dict}
use data_api.Dynamic.Parameters.Contract.{validate_parameter_contract}
use data_api.Dynamic.Parameters.Statement.{BoundStatement, build_bound_statement}
use data_api.Dynamic.Parameters.Values.{mapping, cast_parameter_values}
use data_api.Dynamic.Routes.{
  WriteRequest, Env, settle, rolling_back, settle_delete, rolling_back_delete, is_some, new_route,
  changed_route, tested_write, Client, run_on, client_for, execute_on, run_lab_test_if_requested,
  create_route, get_route, update_route, delete_route, or_not_found, is_other, route_exists,
}
use data_api.Dynamic.Safety.{Dialect, validate}
use data_api.Dynamic.Store.{
  commit_or_raise, DynamicRoute, World, M, get_by_id, get_by_route, create, update, delete, commit,
  rollback,
}
use data_api.Dynamic.Store.Committed.{committed-create, committed-update, committed-delete}
use data_api.Errors.{Exc, integrity_error, Result, ok, err}
use data_api.Session.{◌>>=◌, ◌>>◌, raise_if, continue, pure, lift}
use data_api.Value.{Value}

-- The session and the committed table agree: nothing is pending.
abbrev pub IsSettled : {D : Type 0} → World D → Type 0
IsSettled w = w.session ≡ w.committed

-- After the method nothing is pending, and where it raised the table is as it was.
abbrev pub IsAtomic : {D A : Type 0} → World D → Result A × World D → Type 0
IsAtomic w (ok a, w') = IsSettled w'
IsAtomic w (err e, w') = IsSettled w' × (w'.committed ≡ w.committed)

-- A body under a handler: it returns with all committed, or raises with nothing committed.
abbrev IsBody : {D A : Type 0} → World D → Result A × World D → Type 0
IsBody w (ok a, w') = IsSettled w'
IsBody w (err e, w') = w'.committed ≡ w.committed

module _ {D A : Type 0} where
  settle_lem :
      (w : World D) (r : Result A) (w' : World D) → IsBody w (r, w') → IsAtomic w (settle r w')
  settle_lem w (ok a) w' h = h
  settle_lem w (err integrity_error) w' h = unfold rollback in (refl, h)
  settle_lem w (err _) w' h = unfold rollback in (refl, h)

  rolling_back_lem : (m : M D A) (w : World D) → IsBody w (m w) → IsAtomic w (rolling_back m w)
  unfolding rolling_back
  rolling_back_lem m w h = settle_lem w (m w).0 (m w).1 h

  settle_delete_lem :
      (w : World D) (r : Result A) (w' : World D)
      → IsBody w (r, w')
      → IsAtomic w (settle_delete r w')
  settle_delete_lem w (ok a) w' h = h
  settle_delete_lem w (err e) w' h = unfold rollback in (refl, h)

  rolling_back_delete_lem :
      (m : M D A) (w : World D) → IsBody w (m w) → IsAtomic w (rolling_back_delete m w)
  unfolding rolling_back_delete
  rolling_back_delete_lem m w h = settle_delete_lem w (m w).0 (m w).1 h

module _ {D A B : Type 0} where
  continue-IsAtomic :
      (r : Result A) (f : A → M D B) (w : World D)
      → IsSettled w
      → ((a : A) → IsAtomic w (f a w))
      → IsAtomic w (continue r f w)
  continue-IsAtomic (ok a) f w s h = h a
  continue-IsAtomic (err e) f w s h = (s, refl)

  continue-IsBody :
      (w : World D) (r : Result A) (f : A → M D B) (w' : World D)
      → w'.committed ≡ w.committed
      → ((a : A) → IsBody w (f a w'))
      → IsBody w (continue r f w')
  continue-IsBody w (ok a) f w' c h = h a
  continue-IsBody w (err e) f w' c h = c

  continue-committed :
      (r : Result A) (f : A → M D B) (w' : World D) (c : List (DynamicRoute D))
      → w'.committed ≡ c
      → ((a : A) → (f a w').1.committed ≡ c)
      → (continue r f w').1.committed ≡ c
  continue-committed (ok a) f w' c e h = h a
  continue-committed (err x) f w' c e h = e

module _ (env : Env) where
  open env use {Json, sqlglot, runtime}

  committed-run_on :
      (d : Dialect) (s : BoundStatement) (p : Dict Value) (o : Option Client) (w : World Json)
      → (run_on env d s p o w).1.committed ≡ w.committed
  committed-run_on d s p none w = refl
  committed-run_on d s p (some client) w = refl

  committed-execute_on :
      (d : Dialect) (s : BoundStatement) (p : Dict Value) (w : World Json)
      → (execute_on env d s p w).1.committed ≡ w.committed
  unfolding execute_on
  committed-execute_on d s p w = committed-run_on d s p (client_for env d) w

  committed-run_lab_test :
      (payload : WriteRequest) (sql : Text) (w : World Json)
      → (run_lab_test_if_requested env payload sql w).1.committed ≡ w.committed
  unfolding run_lab_test_if_requested
  committed-run_lab_test payload sql w = elim (Bool-cases payload.lab_test) [
    | inl h ↦ rw h (
        continue-committed
          (cast_parameter_values runtime payload.params (mapping payload.lab_test_params)) _ w _
          refl
          (λ p. continue-committed (build_bound_statement sql payload.params) _ w _ refl (λ s.
            continue-committed (execute_on env payload.db_type s p w).0 (λ _. pure tt)
              (execute_on env payload.db_type s p w).1 _
              (committed-execute_on payload.db_type s p w)
              (λ rows. committed-execute_on payload.db_type s p w))))
    | inr h ↦ rw h refl
  ]

  -- A write and its commit, under a handler: either may raise.
  commit-IsBody :
      {A : Type 0} (w w' : World Json) (a : A)
      → w'.committed ≡ w.committed
      → IsBody w ((commit >> pure a) w')
  unfolding commit
  commit-IsBody w w' a kept = answered (w'.commit_error w'.session)
    where
      answered : (o : Option Exc) → IsBody w ((commit_or_raise o >> pure a) w')
      answered none = refl
      answered (some e) = kept

  tested_write-IsAtomic :
      (payload : WriteRequest) (sql : Text) (write : M Json (DynamicRoute Json)) (w : World Json)
      → ((w' : World Json) → (write w').1.committed ≡ w'.committed)
      → IsAtomic w (tested_write env payload sql write w)
  unfolding tested_write
  tested_write-IsAtomic payload sql write w kept =
      rolling_back_lem
        (run_lab_test_if_requested env payload sql >> (write >>= λ r. commit >> pure r)) w
        (continue-IsBody w lab.0 _ lab.1 (committed-run_lab_test payload sql w) (λ u.
          continue-IsBody w (write lab.1).0 (λ r. commit >> pure r) (write lab.1).1
            (kept lab.1 ∙ committed-run_lab_test payload sql w)
            (λ route.
              commit-IsBody w (write lab.1).1 route
                (kept lab.1 ∙ committed-run_lab_test payload sql w))))
    where
      lab : Result (Unit {0}) × World Json
      lab = run_lab_test_if_requested env payload sql w

  raise_then :
      (b : Bool) (e : Exc) (m : M Json (DynamicRoute Json)) (w : World Json)
      → IsSettled w
      → IsAtomic w (m w)
      → IsAtomic w ((raise_if b e >> m) w)
  raise_then false e m w s h = h
  raise_then true e m w s h = (s, refl)

  create_route-IsAtomic :
      (payload : WriteRequest) (actor_id : ℕ) (w : World Json)
      → IsSettled w
      → IsAtomic w (create_route env payload actor_id w)
  unfolding create_route get_by_route
  create_route-IsAtomic payload actor_id w s =
      continue-IsAtomic (validate sqlglot runtime payload.sql payload.db_type) _ w s (λ v.
        continue-IsAtomic (validate_parameter_contract v.parameter_names payload.params) _ w s (λ u.
          continue-IsAtomic (get_by_route payload.prefix payload.path w).0 _ w s (λ existing.
            raise_then (is_some existing) route_exists _ w s (
              tested_write-IsAtomic payload v.canonical_sql
                (create (new_route env payload v.canonical_sql actor_id)) w
                (committed-create (new_route env payload v.canonical_sql actor_id))))))

  get_route-Reads : (route_id : ℕ) (w : World Json) → (get_route env route_id w).1 ≡ w
  unfolding get_route get_by_id
  get_route-Reads route_id w = reads (get_by_id route_id w).0
    where
      reads :
          (r : Result (Option (DynamicRoute Json)))
          → (continue r (λ o. lift (or_not_found env o)) w).1 ≡ w
      reads (ok o) = refl
      reads (err e) = refl

  after_get_route :
      (route_id : ℕ) (f : DynamicRoute Json → M Json (DynamicRoute Json)) (w : World Json)
      → IsSettled w
      → ((route : DynamicRoute Json) → IsAtomic w (f route w))
      → IsAtomic w ((get_route env route_id >>= f) w)
  after_get_route route_id f w s h =
      rw (get_route-Reads route_id w) (continue-IsAtomic (get_route env route_id w).0 f w s h)

  update_route-IsAtomic :
      (route_id : ℕ) (payload : WriteRequest) (actor_id : ℕ) (w : World Json)
      → IsSettled w
      → IsAtomic w (update_route env route_id payload actor_id w)
  unfolding update_route get_by_route
  update_route-IsAtomic route_id payload actor_id w s = after_get_route route_id _ w s (λ route.
      continue-IsAtomic (validate sqlglot runtime payload.sql payload.db_type) _ w s (λ v.
        continue-IsAtomic (validate_parameter_contract v.parameter_names payload.params) _ w s (λ u.
          continue-IsAtomic (get_by_route payload.prefix payload.path w).0 _ w s (λ collision.
            raise_then (is_other env collision route.id) route_exists _ w s (
              tested_write-IsAtomic payload v.canonical_sql
                (update (changed_route env route payload v.canonical_sql actor_id)) w
                (committed-update (changed_route env route payload v.canonical_sql actor_id)))))))

  delete_route-IsAtomic :
      (route_id : ℕ) (w : World Json) → IsSettled w → IsAtomic w (delete_route env route_id w)
  unfolding delete_route
  delete_route-IsAtomic route_id w s = after_get_route route_id _ w s (λ route.
      rolling_back_delete_lem (delete route >> (commit >> pure route)) w (
        continue-IsBody w (delete route w).0 _ (delete route w).1 (committed-delete route w)
          (λ u. commit-IsBody w (delete route w).1 route (committed-delete route w))))

  -- From a settled session, creating, updating or deleting a route leaves nothing pending, and where it
  -- raises, the committed table is as it was: whatever raises, the checks, the lab test, the unique constraint, or the
  -- database when it is to write the rows or to commit them.
  pub writes-IsAtomic :
      (route_id : ℕ) (payload : WriteRequest) (actor_id : ℕ) (w : World Json)
      → IsSettled w
      → IsAtomic w (create_route env payload actor_id w)
        × IsAtomic w (update_route env route_id payload actor_id w)
        × IsAtomic w (delete_route env route_id w)
  writes-IsAtomic route_id payload actor_id w s = (
    create_route-IsAtomic payload actor_id w s,
    update_route-IsAtomic route_id payload actor_id w s,
    delete_route-IsAtomic route_id w s,
  )
