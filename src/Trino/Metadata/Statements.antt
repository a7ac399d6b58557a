-- ===== src/Trino/Metadata/Statements.antt =====
-- The statements that the methods run.
use data_api.Prelude.{inr, ◌⊎◌, inl, List, ◌≡◌, ◌∷◌, ◌++◌, some, ap}
use data_api.Text.{Text, codes, split}
use data_api.Errors.{Result, ok, err, value_error, ◌>>=◌}
use data_api.Pii.Mapper.{Row}
use data_api.Trino.Identifiers.{quote_identifier_path}
use data_api.Trino.Identifiers.Quoted.{read, before, quote_identifier_path_lem}
use data_api.Trino.Metadata.{
  first_column_values, trino_columns, get_schemas, get_tables, get_columns,
}
use data_api.Value.{Runtime}

-- The call is refused before a statement runs, or it runs one statement, which is `show` and a path that
-- reads as the parts of `path`, and makes its result of the rows.
abbrev pub Shows :
    {A : Type 0}
    → (Text → Result (List Row))
    → (List Row → Result A)
    → Text
    → Text
    → Result A
    → Type 0
Shows {A} execute make show path call =
    (call ≡ err value_error)
    ⊎ (q : Text) × (call ≡ (execute (show ++ q) >>= make))
      × (read before q ≡ some (split b'.' path))

shows :
    {A : Type 0} (execute : Text → Result (List Row)) (make : List Row → Result A)
    (show path : Text)
    → Shows execute make show path
        (quote_identifier_path path >>= λ q. execute (show ++ q) >>= make)
shows execute make show path = elim (quote_identifier_path_lem path) [
  | inl (bad, e) ↦ inl (ap (λ r. r >>= λ q. execute (show ++ q) >>= make) e)
  | inr (q, e, parts) ↦ inr (q, ap (λ r. r >>= λ q. execute (show ++ q) >>= make) e, parts)
]

module _ (rt : Runtime) (execute : Text → Result (List Row)) where
  abbrev pub names : List Row → Result (List Text)
  names rows = ok (first_column_values rt rows)

  -- Asking for schemas, tables or columns either raises a ValueError before anything runs, or runs one
  -- SHOW statement, on a quoted path that reads in SQL as the parts of the path asked for.
  pub get_names-Shows :
      (catalog schema table : Text)
      → Shows execute names (codes "SHOW SCHEMAS FROM ") catalog (get_schemas rt execute catalog)
        × Shows execute names
            (codes "SHOW TABLES FROM ")
            (catalog ++ b'.' ∷ schema)
            (get_tables rt execute catalog schema)
        × Shows execute
            (trino_columns rt)
            (codes "SHOW COLUMNS FROM ")
            (catalog ++ b'.' ∷ (schema ++ b'.' ∷ table))
            (get_columns rt execute catalog schema table)
  unfolding get_schemas get_tables get_columns
  get_names-Shows catalog schema table = (
    shows execute names (codes "SHOW SCHEMAS FROM ") catalog,
    shows execute names (codes "SHOW TABLES FROM ") (catalog ++ b'.' ∷ schema),
    shows execute (trino_columns rt) (codes "SHOW COLUMNS FROM ")
        (catalog ++ b'.' ∷ (schema ++ b'.' ∷ table)),
  )
