-- ===== src/Trino/Engine/Disposal.antt =====
-- What becomes of the engines: none is lost, and none is used again after it was given up.
use data_api.Prelude.{
  none, some, Option, ℕ, ◌==◌, ltb, Bool, false, not, ◌&&◌, ◌||◌, any, ◌≡◌, refl, arith, List, [],
  ◌∷◌, ◌++◌, Bool-cases, inl, inr,
}
use data_api.Trino.Engine.{
  dispose_of, Client, Outcome, returns, raises, is_engine, get_engine, remove_engine, take_engine,
  dispose, Thread, execute_sync, query, failed, timed_out, close_sync, disposing, finished, run,
  Reach, start, execute_called, time_out, close_called, switch, step,
}

abbrev pub disposes : ℕ → Thread → Bool
disposes e (disposing f) = f == e
disposes e _ = false

-- The thread holds the engine.
abbrev pub holds : ℕ → Thread → Bool
holds e (query f) = f == e
holds e (failed f) = f == e
holds e (disposing f) = f == e
holds e _ = false

abbrev pub is_same : ℕ → ℕ → Bool
is_same e f = f == e

-- The engine is given up: a thread is about to dispose it, or it is disposed.
abbrev pub is_given_up : ℕ → List Thread → Client → Bool
is_given_up e ts w = any (disposes e) ts || any (is_same e) w.disposed

-- An engine has been created exactly if it is in the slot or given up; it is never both; and threads
-- hold engines that have been created.
abbrev pub IsTracked : ℕ → List Thread → Client → Type 0
IsTracked e ts w =
    ((is_engine e w.engine || is_given_up e ts w) ≡ ltb e w.created)
    × ((is_engine e w.engine && is_given_up e ts w) ≡ false)
    × ((any (holds e) ts && not (ltb e w.created)) ≡ false)

any-snoc :
    (p : Thread → Bool) (ts : List Thread) (t : Thread) → any p (ts ++ t ∷ []) ≡ (p t || any p ts)
any-snoc p [] t = refl
any-snoc p (s ∷ ts) t = ground (arith, any-snoc p ts t)

abbrev pub client : Option ℕ → ℕ → List ℕ → Client
client engine created disposed = record { engine = engine; created = created; disposed = disposed }

get_engine-IsTracked :
    (outcome : Outcome) (o : Option ℕ) (n : ℕ) (ds : List ℕ) (ts : List Thread) (e : ℕ)
    → IsTracked e (execute_sync ∷ ts) (client o n ds)
    → IsTracked e
        ((run outcome execute_sync (client o n ds)).0 ∷ ts)
        (run outcome execute_sync (client o n ds)).1
unfolding run get_engine
get_engine-IsTracked outcome (some f) n ds ts e (h, i, j) = (h, i, ground (arith, h, i, j))
get_engine-IsTracked raises none n ds ts e h = h
get_engine-IsTracked returns none n ds ts e (h, i, j) =
    (ground (arith, h, i, j), ground (arith, h, i, j), ground (arith, h, i, j))

take_engine-IsTracked :
    (o : Option ℕ) (n : ℕ) (ds : List ℕ) (ts : List Thread) (e : ℕ)
    → IsTracked e (finished ∷ ts) (client o n ds)
    → IsTracked e (dispose_of o ∷ ts) (client none n ds)
take_engine-IsTracked none n ds ts e h = h
take_engine-IsTracked (some f) n ds ts e (h, i, j) =
    (ground (arith, h, i, j), refl, ground (arith, h, i, j))

remove_engine-IsTracked :
    (f : ℕ) (o : Option ℕ) (n : ℕ) (ds : List ℕ) (ts : List Thread) (e : ℕ)
    → IsTracked e (failed f ∷ ts) (client o n ds)
    → IsTracked e (disposing f ∷ ts) (remove_engine f (client o n ds))
unfolding remove_engine
remove_engine-IsTracked f none n ds ts e (h, i, j) = (ground (arith, h, i, j), refl, j)
remove_engine-IsTracked f (some g) n ds ts e (h, i, j) = elim (Bool-cases (g == f)) [
  | inl eq ↦ rw eq (ground (arith, eq, h, i, j), refl, j)
  | inr eq ↦ rw eq (ground (arith, eq, h, i, j), ground (arith, eq, h, i, j), j)
]

pub run-IsTracked :
    (outcome : Outcome) (t : Thread) (ts : List Thread) (w : Client) (e : ℕ)
    → IsTracked e (t ∷ ts) w
    → IsTracked e ((run outcome t w).0 ∷ ts) (run outcome t w).1
unfolding run take_engine dispose
run-IsTracked outcome execute_sync ts w e h =
    get_engine-IsTracked outcome w.engine w.created w.disposed ts e h
run-IsTracked returns (query f) ts w e (h, i, j) = (h, i, ground (arith, j))
run-IsTracked raises (query f) ts w e h = h
run-IsTracked outcome (failed f) ts w e h =
    remove_engine-IsTracked f w.engine w.created w.disposed ts e h
run-IsTracked outcome timed_out ts w e h =
    take_engine-IsTracked w.engine w.created w.disposed ts e h
run-IsTracked outcome close_sync ts w e h =
    take_engine-IsTracked w.engine w.created w.disposed ts e h
run-IsTracked outcome (disposing f) ts w e (h, i, j) =
    (ground (arith, h, i, j), ground (arith, h, i, j), ground (arith, h, i, j))
run-IsTracked outcome finished ts w e h = h

switch-IsTracked :
    (t : Thread) (ts : List Thread) (w : Client) (e : ℕ)
    → IsTracked e (t ∷ ts) w
    → IsTracked e (ts ++ t ∷ []) w
switch-IsTracked t ts w e h = rw (any-snoc (disposes e) ts t, any-snoc (holds e) ts t) h

-- Whatever the calls do and in whatever order their threads run, an engine has been created exactly if
-- it is in the slot or given up, never both, and no thread has an engine that was not created: none is
-- lost, and the slot hands out none that was given up.
pub Reach-IsTracked : {ts : List Thread} {w : Client} → Reach ts w → (e : ℕ) → IsTracked e ts w
Reach-IsTracked start e = (ground arith, refl, refl)
Reach-IsTracked (execute_called r) e = Reach-IsTracked r e
Reach-IsTracked (time_out r) e = Reach-IsTracked r e
Reach-IsTracked (close_called r) e = Reach-IsTracked r e
Reach-IsTracked (switch {t} {ts} {w} r) e = switch-IsTracked t ts w e (Reach-IsTracked r e)
Reach-IsTracked (step {t} {ts} {w} outcome r) e =
    run-IsTracked outcome t ts w e (Reach-IsTracked r e)
