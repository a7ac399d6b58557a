-- ===== src/Trino/Engine.antt =====
-- The engine of app/infrastructure/trino/client.py: the slot that a lock guards, and the calls that
-- use it as threads, whose steps are what happens between two releases of the lock. An engine is the
-- number of its creation.
pub mod Disposal
use data_api.Prelude.{
  zero, suc, ℕ, ◌+◌, ◌==◌, Bool, true, false, if◌then◌else◌, Option, none, some, List, [], ◌∷◌,
  ◌++◌,
}

-- `_engine`; how many engines have been created; the engines that `dispose` was called on.
pub record Client : Type 0 where
  pub engine : Option ℕ
  pub created : ℕ
  pub disposed : List ℕ

-- What a call of the engine's library comes to.
pub data Outcome : Type 0 where
  returns raises : Outcome

abbrev pub is_engine : ℕ → Option ℕ → Bool
is_engine e none = false
is_engine e (some f) = f == e

abbrev pub acquire : Option ℕ → Outcome → Client → Option ℕ × Client
acquire (some e) outcome w = (some e, w)
acquire none raises w = (none, w)
acquire none returns w =
    (some w.created, record w { engine = some w.created; created = w.created + 1 })

-- `outcome` is that of `_create_engine`, where it is called; `none` is its exception
unfoldable pub get_engine : Outcome → Client → Option ℕ × Client
get_engine outcome w = acquire w.engine outcome w

-- what `_dispose_engine` does under the lock
unfoldable pub remove_engine : ℕ → Client → Client
remove_engine e w = if is_engine e w.engine then record w { engine = none } else w

-- what `_dispose_current_engine` does under the lock, and `_close_sync`
unfoldable pub take_engine : Client → Option ℕ × Client
take_engine w = (w.engine, record w { engine = none })

-- `engine.dispose()`
unfoldable pub dispose : ℕ → Client → Client
dispose e w = record w { disposed = e ∷ w.disposed }

-- A thread: about to call `_get_engine`; running a statement on an engine; in the `except` of
-- `_execute_sync`; in that of `execute`, when the time of the call has run out; about to run
-- `_close_sync`; about to call `dispose`; at its end.
pub data Thread : Type 0 where
  execute_sync : Thread
  query : ℕ → Thread
  failed : ℕ → Thread
  timed_out : Thread
  close_sync : Thread
  disposing : ℕ → Thread
  finished : Thread

abbrev pub query_on : Option ℕ → Thread
query_on none = finished
query_on (some e) = query e

abbrev pub dispose_of : Option ℕ → Thread
dispose_of none = finished
dispose_of (some e) = disposing e

unfoldable pub run : Outcome → Thread → Client → Thread × Client
unfolding get_engine remove_engine take_engine dispose
run outcome execute_sync w = let (o, w') = get_engine outcome w in (query_on o, w')
run returns (query e) w = (finished, w)
run raises (query e) w = (failed e, w)
run outcome (failed e) w = (disposing e, remove_engine e w)
run outcome timed_out w = let (o, w') = take_engine w in (dispose_of o, w')
run outcome close_sync w = let (o, w') = take_engine w in (dispose_of o, w')
run outcome (disposing e) w = (finished, dispose e w)
run outcome finished w = (finished, w)

-- `TrinoPythonClient()`
abbrev pub new_client : Client
new_client = record { engine = none; created = 0; disposed = [] }

-- The threads that run, the first of them next, and the client. The time of a call can run out
-- wherever its thread is, and the thread goes on.
pub data Reach : List Thread → Client → Type 0 where
  start : Reach [] new_client
  execute_called : {ts : List Thread} {w : Client} → Reach ts w → Reach (execute_sync ∷ ts) w
  time_out : {ts : List Thread} {w : Client} → Reach ts w → Reach (timed_out ∷ ts) w
  close_called : {ts : List Thread} {w : Client} → Reach ts w → Reach (close_sync ∷ ts) w
  switch : {t : Thread} {ts : List Thread} {w : Client} → Reach (t ∷ ts) w → Reach (ts ++ t ∷ []) w
  step :
      {t : Thread} {ts : List Thread} {w : Client} (outcome : Outcome)
      → Reach (t ∷ ts) w
      → Reach ((run outcome t w).0 ∷ ts) (run outcome t w).1
