-- ===== src/Process/Clients.antt =====
-- The Trino client of the process, when the first call of `get_trino_client` is over before the others start.
use data_api.Prelude.{ℕ, ◌+◌, none, some, List, [], ◌∷◌, ◌++◌, ◌≡◌, refl, All, ap}
use data_api.Process.{
  Process, Call, get_trino_client, testing, making, reading, returned, sync_round, Serves, start,
  called, switch, step, synced, call, close_trino_client,
}

-- a call that gets the client, if it returns
abbrev pub IsOf : ℕ → Call → Type 0
IsOf c testing = Unit
IsOf c making = ⊥
IsOf c reading = Unit
IsOf c (returned o) = o ≡ some c

-- The process has the client, of so many, and has closed these.
record HasClient (c n : ℕ) (closed : List ℕ) (p : Process) : Type 0 where
  is_client : p.trino_client ≡ some c
  is_created : p.created ≡ n
  is_closed : p.closed ≡ closed

All-snoc :
    (c : ℕ) (d : Call) (cs : List Call) → IsOf c d → All (IsOf c) cs → All (IsOf c) (cs ++ d ∷ [])
All-snoc c d [] h k = (h, tt)
All-snoc c d (x ∷ cs) h (k, ks) = (k, All-snoc c d cs h ks)

module _ (c n : ℕ) (closed : List ℕ) where
  get_trino_client-IsOf :
      (d : Call) (p : Process)
      → HasClient c n closed p
      → IsOf c d
      → HasClient c n closed (get_trino_client d p).1 × IsOf c (get_trino_client d p).0
  unfolding get_trino_client
  get_trino_client-IsOf testing p h k = (h, rw h.is_client tt)
  get_trino_client-IsOf making p h k = elim k [ ]
  get_trino_client-IsOf reading p h k = (h, h.is_client)
  get_trino_client-IsOf (returned o) p h k = (h, k)

  Serves-HasClient :
      {batch_size fuel : ℕ} {v p : Process} {cs : List Call}
      → HasClient c n closed v
      → Serves batch_size fuel v cs p
      → HasClient c n closed p × All (IsOf c) cs
  unfolding sync_round
  Serves-HasClient h start = (h, tt)
  Serves-HasClient h (called s) = let (k, ks) = Serves-HasClient h s in (k, (tt, ks))
  Serves-HasClient h (switch {c = d} {cs = cs} {p = p} s) =
      let (k, (i, is)) = Serves-HasClient h s in (k, All-snoc c d cs i is)
  Serves-HasClient h (step {c = d} {cs = cs} {p = p} s) =
      let (k, (i, is)) = Serves-HasClient h s in
      let (k', i') = get_trino_client-IsOf d p k i in (k', (i', is))
  Serves-HasClient h (synced {cs = cs} {p = p} execute s) =
      let (k, ks) = Serves-HasClient h s in
      (record { is_client = k.is_client; is_created = k.is_created; is_closed = k.is_closed }, ks)

-- If the process has no client and its first call of `get_trino_client` is over before the others start, then
-- whatever comes after it, every call that returns gets the client that the first one made, no other is made,
-- and the end of the process closes it and leaves none.
pub call-close_trino_client :
    (batch_size fuel : ℕ) (u p : Process) (cs : List Call)
    → u.trino_client ≡ none
    → Serves batch_size fuel (call u).1 cs p
    → ((call u).0 ≡ some u.created)
      × All (IsOf u.created) cs
      × (p.created ≡ u.created + 1)
      × ((close_trino_client p).trino_client ≡ none)
      × ((close_trino_client p).closed ≡ u.created ∷ u.closed)
unfolding call get_trino_client close_trino_client
call-close_trino_client batch_size fuel u p cs h s =
    let (k, ks) = Serves-HasClient u.created (u.created + 1) u.closed made s in
    (
      rw h refl,
      ks,
      k.is_created,
      rw k.is_client refl,
      rw k.is_client (ap (λ l. u.created ∷ l) k.is_closed),
    )
  where
    made : HasClient u.created (u.created + 1) u.closed (call u).1
    made = rw h (record { is_client = refl; is_created = refl; is_closed = refl })
