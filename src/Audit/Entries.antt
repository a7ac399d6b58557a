-- ===== src/Audit/Entries.antt =====
-- What a session that has nothing pending commits with one entry.
use mathlib.Core.List.{append-nil}
use mathlib.Core.Path.{ap₂}
use data_api.Prelude.{Option, none, List, [], ◌∷◌, ◌++◌, ◌≡◌, refl, sym, ap, ◌∙◌}
use data_api.Audit.{AuditLog, Trail, create_entry, commit_trail}
use data_api.Errors.{Exc, ok}
use data_api.Session.{continue, ◌>>◌}

-- The trail with more committed entries.
abbrev pub extended : Trail → List AuditLog → Trail
extended t entries = record { pending = []; committed = t.committed ++ entries }

abbrev trail : List AuditLog → List AuditLog → Trail
trail pending committed = record { pending = pending; committed = committed }

pub extended_by_none : (t : Trail) → t.pending ≡ [] → t ≡ extended t []
extended_by_none t h = ap₂ (λ p c. trail p c) h (sym (append-nil t.committed))

module _ (flush_error : AuditLog → Option Exc)
    (writes : (e : AuditLog) → flush_error e ≡ none) where
  create_entry_lem :
      (e : AuditLog) (t : Trail)
      → create_entry flush_error e t ≡ (ok tt, record t { pending = t.pending ++ e ∷ [] })
  unfolding create_entry
  create_entry_lem e t = rw (writes e, create_entry) refl

  -- Where entries can be written, an entry that is created is committed.
  pub entry_lem :
      (e : AuditLog) (t : Trail)
      → t.pending ≡ []
      → (create_entry flush_error e >> commit_trail) t ≡ (ok tt, extended t (e ∷ []))
  unfolding commit_trail
  entry_lem e t h =
      ap (λ p. continue p.0 (λ _. commit_trail) p.1) (create_entry_lem e t)
      ∙ ap (λ p. (ok tt, trail [] (t.committed ++ (p ++ e ∷ [])))) h
