-- ===== src/Dynamic/Store/Committed.antt =====
-- The writes of app/repositories/sqlalchemy/dynamic_route.py leave the committed table alone, also where
-- they raise.
use data_api.Prelude.{◌≡◌, refl, Bool, true, false, not, keep, Option, none, some}
use data_api.Dynamic.Store.{
  DynamicRoute, World, flush, or_raise, create, update, delete, violates, has_id,
}
use data_api.Errors.{Exc}

module _ {D : Type 0} where
  pub committed-flush :
      {A : Type 0} (violated : Bool) (a : A) (w : World D)
      → (flush violated a w).1.committed ≡ w.committed
  unfolding flush
  committed-flush true a w = refl
  committed-flush false a w = answered (w.flush_error w.session)
    where
      answered : (o : Option Exc) → (or_raise o a w).1.committed ≡ w.committed
      answered none = refl
      answered (some e) = refl

  pub committed-create :
      (route : DynamicRoute D) (w : World D) → (create route w).1.committed ≡ w.committed
  unfolding create
  committed-create route w = committed-flush (violates (record route { id = w.next_id }) w) _ _

  pub committed-update :
      (route : DynamicRoute D) (w : World D) → (update route w).1.committed ≡ w.committed
  unfolding update
  committed-update route w = committed-flush (violates route w) _ _

  pub committed-delete :
      (route : DynamicRoute D) (w : World D) → (delete route w).1.committed ≡ w.committed
  unfolding delete
  committed-delete route w =
      committed-flush false tt
        (record w { session = keep (λ r. not (has_id route.id r)) w.session })
