-- ===== src/Dynamic/Routes/Execute/ReadOnly.antt =====
-- What the database clients are given.
use mathlib.Core.Path.{subst}
use data_api.Prelude.{
  ℕ, ◌≡◌, ◌⊎◌, inl, inr, refl, sym, ◌∙◌, Option, none, some, List, [], ◌∷◌, ◌++◌, All, Bool-cases,
}
use data_api.Prelude.Int.{ℤ}
use data_api.Text.{Text, codes}
use data_api.Dict.{Dict}
use data_api.Dynamic.Pagination.{
  total_pages, ResponseType, paginated, rows_only, extract_pagination, extract_total,
}
use data_api.Dynamic.Parameters.{DynamicParameterDefinition}
use data_api.Dynamic.Parameters.Contract.{validate_parameter_contract}
use data_api.Dynamic.Parameters.Statement.{
  BoundStatement, build_bound_statement, build_bound_statement_total,
}
use data_api.Dynamic.Parameters.Values.{QueryParams, query_params, mapping, cast_parameter_values}
use data_api.Dynamic.Routes.{
  Client, run_on, client_for, WriteRequest, Env, execute_on, or_not_found,
  run_lab_test_if_requested,
}
use data_api.Dynamic.Routes.Execute.{
  paginated_rows, count_sql, paginated_sql, paginated_parameters, deserialize_definitions, map_pii,
  execute_paginated, execute_rows, execute_as, execute_route,
}
use data_api.Dynamic.Safety.{Dialect, validate}
use data_api.Dynamic.Safety.Policy.{IsReadOnlySelect, validate-IsReadOnlySelect}
use data_api.Dynamic.Store.{DynamicRoute, Execution, World, M, get_by_route}
use data_api.Errors.{Result, ok, err}
use data_api.Session.{◌>>=◌, continue, pure, lift}
use data_api.Value.{Value}

module _ (env : Env) where
  open env use {sqlglot, runtime, Json, trino_client, postgres_client, token_to_value}

  -- The text parses, in the dialect, as one SELECT with none of the nodes that the safety check forbids,
  -- or is the count or the page around such text.
  abbrev pub IsChecked : Dialect → Text → Type 0
  IsChecked d sql =
      (base : Text) × IsReadOnlySelect sqlglot base d
      × ((sql ≡ base)
          ⊎ ((sql
                ≡ codes "SELECT COUNT(*) AS total FROM ("
                  ++ (base ++ codes ") AS dynamic_route_count"))
              ⊎ (sql
                  ≡ codes "SELECT * FROM ("
                    ++ (base
                        ++ codes
                            ") AS dynamic_route_data LIMIT :__dynamic_page_size OFFSET :__dynamic_offset"))))

  -- Every statement that a client was given is such text.
  abbrev pub AreChecked : World Json → Type 0
  AreChecked w = All (λ x. IsChecked x.client x.statement.sql) w.executed

  -- The clients of the second world were given checked statements only, and its table is that of the
  -- first, committed and in the session.
  pub record Reads (w w' : World Json) : Type 0 where
    pub safe : AreChecked w'
    pub session : w'.session ≡ w.session
    pub committed : w'.committed ≡ w.committed

  Reads-refl : (w : World Json) → AreChecked w → Reads w w
  Reads-refl w h = record { safe = h; session = refl; committed = refl }

  Reads-trans : {u v w : World Json} → Reads u v → Reads v w → Reads u w
  Reads-trans h k = record {
    safe = k.safe;
    session = k.session ∙ h.session;
    committed = k.committed ∙ h.committed;
  }

  continue-lift :
      {A B : Type 0} (r : Result A) (f : A → M Json B) (w : World Json)
      → AreChecked w
      → ((a : A) → r ≡ ok a → Reads w (f a w).1)
      → Reads w (continue r f w).1
  continue-lift (ok a) f w s h = h a refl
  continue-lift (err e) f w s h = Reads-refl w s

  continue-after :
      {A B : Type 0} (r : Result A) (f : A → M Json B) (w w' : World Json)
      → Reads w w'
      → ((a : A) → Reads w' (f a w').1)
      → Reads w (continue r f w').1
  continue-after (ok a) f w w' h k = Reads-trans h (k a)
  continue-after (err e) f w w' h k = h

  All-concat :
      (xs : List Execution) (x : Execution)
      → All (λ x. IsChecked x.client x.statement.sql) xs
      → IsChecked x.client x.statement.sql
      → All (λ x. IsChecked x.client x.statement.sql) (xs ++ x ∷ [])
  All-concat [] x h k = (k, tt)
  All-concat (y ∷ xs) x (h, hs) k = (h, All-concat xs x hs k)

  run_on-Reads :
      (d : Dialect) (s : BoundStatement) (p : Dict Value) (o : Option Client) (w : World Json)
      → AreChecked w
      → IsChecked d s.sql
      → Reads w (run_on env d s p o w).1
  run_on-Reads d s p none w h k = Reads-refl w h
  run_on-Reads d s p (some client) w h k = record {
    safe = All-concat w.executed (record { client = d; statement = s; parameters = p }) h k;
    session = refl;
    committed = refl;
  }

  execute_on-Reads :
      (d : Dialect) (s : BoundStatement) (p : Dict Value) (w : World Json)
      → AreChecked w
      → IsChecked d s.sql
      → Reads w (execute_on env d s p w).1
  unfolding execute_on
  execute_on-Reads d s p w h k = run_on-Reads d s p (client_for env d) w h k

  built :
      (d : Dialect) (sql : Text) (ds : Dict DynamicParameterDefinition) (s : BoundStatement)
      → build_bound_statement sql ds ≡ ok s
      → IsChecked d sql
      → IsChecked d s.sql
  built d sql ds s e h =
      let (s', made, same, names) = build_bound_statement_total sql ds in
      let same' : s.sql ≡ sql = cc (made, e, same) in subst (IsChecked d) (sym same') h

  execute_rows-Reads :
      (route : DynamicRoute Json) (s : BoundStatement) (p : Dict Value) (w : World Json)
      → AreChecked w
      → IsChecked route.db_type s.sql
      → Reads w (execute_rows env route s p w).1
  unfolding execute_rows
  execute_rows-Reads route s p w h k =
      let ran = execute_on-Reads route.db_type s p w h k in
      continue-after (execute_on env route.db_type s p w).0 _ w
        (execute_on env route.db_type s p w).1 ran
        (λ rows.
          continue-lift (map_pii env route rows route.pii_type token_to_value) _ _ ran.safe
            (λ m e. Reads-refl _ ran.safe))

  execute_paginated-Reads :
      (route : DynamicRoute Json) (sql : Text) (ds : Dict DynamicParameterDefinition)
      (p : Dict Value) (page page_size : ℕ) (w : World Json)
      → AreChecked w
      → IsReadOnlySelect sqlglot sql route.db_type
      → Reads w (execute_paginated env route sql ds p page page_size w).1
  unfolding execute_paginated count_sql paginated_sql
  execute_paginated-Reads route sql ds p page page_size w h k =
      continue-lift (build_bound_statement (count_sql sql) ds) _ w h (λ c e.
        let count_safe = built route.db_type (count_sql sql) ds c e (sql, k, inr (inl refl)) in
        let counted = execute_on-Reads route.db_type c p w h count_safe in
        let w1 = (execute_on env route.db_type c p w).1 in
        continue-after (execute_on env route.db_type c p w).0 _ w w1 counted (λ rows.
          continue-lift (extract_total runtime rows) _ w1 counted.safe (λ total _.
            continue-lift (build_bound_statement (paginated_sql sql) ds) _ w1 counted.safe (λ s e'.
              page_then s w1 counted.safe
                (built route.db_type (paginated_sql sql) ds s e' (sql, k, inr (inr refl))) total))))
    where
      params : Dict Value
      params = paginated_parameters p page page_size

      page_then :
          (s : BoundStatement) (w1 : World Json)
          → AreChecked w1
          → IsChecked route.db_type s.sql
          → (total : ℤ)
          → Reads w1
              ((execute_on env route.db_type s params >>= λ rows.
                  lift (map_pii env route rows route.pii_type token_to_value) >>= λ mapped. pure (
                    paginated_rows mapped.0
                      (record {
                        total = total;
                        page = page;
                        page_size = page_size;
                        total_pages = total_pages total page_size;
                      })
                      mapped.1))
                w1).1
      page_then s w1 h1 safe total =
          let ran = execute_on-Reads route.db_type s params w1 h1 safe in
          let w2 = (execute_on env route.db_type s params w1).1 in
          continue-after (execute_on env route.db_type s params w1).0 _ w1 w2 ran (λ rows.
            continue-lift (map_pii env route rows route.pii_type token_to_value) _ w2 ran.safe
              (λ m e. Reads-refl w2 ran.safe))

  execute_as-Reads :
      (route : DynamicRoute Json) (sql : Text) (ds : Dict DynamicParameterDefinition)
      (s : BoundStatement) (p : Dict Value) (t : ResponseType) (o : Option (ℕ × ℕ)) (w : World Json)
      → AreChecked w
      → IsReadOnlySelect sqlglot sql route.db_type
      → build_bound_statement sql ds ≡ ok s
      → Reads w (execute_as env route sql ds s p t o w).1
  unfolding execute_as
  execute_as-Reads route sql ds s p paginated (some (page, size)) w h k e =
      execute_paginated-Reads route sql ds p page size w h k
  execute_as-Reads route sql ds s p paginated none w h k e = Reads-refl w h
  execute_as-Reads route sql ds s p rows_only o w h k e =
      execute_rows-Reads route s p w h (built route.db_type sql ds s e (sql, k, inl refl))

  -- Whatever SQL the table holds, executing a route, whether it returns or raises, gives the clients only
  -- text that parses as one SELECT with none of the nodes that the safety check forbids, or the statement
  -- that counts the rows of such text, or the one that takes a page of them; where that held of all the
  -- clients were given before. It writes nothing to the table of routes. The wrapped statements are not
  -- parsed again, and what the check does not forbid, such as a call of a function that writes, is not
  -- excluded.
  pub execute_route-Reads :
      (prefix path : Text) (raw : QueryParams) (w : World Json)
      → AreChecked w
      → Reads w (execute_route env prefix path raw w).1
  unfolding execute_route get_by_route
  execute_route-Reads prefix path raw w h =
      continue-lift (get_by_route prefix path w).0 _ w h (λ found _.
        continue-lift (or_not_found env found) _ w h (λ route _.
          continue-lift (validate sqlglot runtime route.canonical_sql route.db_type) _ w h
            (λ v checked.
              let (clean, select, names) =
                validate-IsReadOnlySelect sqlglot runtime route.canonical_sql route.db_type v
                  checked in
              continue-lift (deserialize_definitions env route.parameter_definitions) _ w h (λ ds _.
                continue-lift (validate_parameter_contract v.parameter_names ds) _ w h (λ u _.
                  continue-lift (extract_pagination runtime raw route.response_type) _ w h (λ x _.
                    continue-lift (cast_parameter_values runtime ds (query_params x.query_params)) _
                      w h
                      (λ p _.
                        continue-lift (build_bound_statement v.canonical_sql ds) _ w h (λ s made.
                          execute_as-Reads route v.canonical_sql ds s p route.response_type
                            x.page_and_size w h select made))))))))

  -- For SQL that parses as one SELECT with no forbidden node, the lab test of a route that is being
  -- written, whether it returns or raises, gives the clients only such text and leaves the table of routes
  -- as it was, where the clients were given only checked statements before.
  pub run_lab_test_if_requested-Reads :
      (payload : WriteRequest) (sql : Text) (w : World Json)
      → AreChecked w
      → IsReadOnlySelect sqlglot sql payload.db_type
      → Reads w (run_lab_test_if_requested env payload sql w).1
  unfolding run_lab_test_if_requested
  run_lab_test_if_requested-Reads payload sql w h k = elim (Bool-cases payload.lab_test) [
    | inl test ↦ rw test (
        continue-lift
          (cast_parameter_values runtime payload.params (mapping payload.lab_test_params)) _ w h
          (λ p _. continue-lift (build_bound_statement sql payload.params) _ w h (λ s made.
            let ran =
              execute_on-Reads payload.db_type s p w h
                (built payload.db_type sql payload.params s made (sql, k, inl refl)) in
            continue-after (execute_on env payload.db_type s p w).0 (λ _. pure tt) w
              (execute_on env payload.db_type s p w).1 ran
              (λ rows. Reads-refl (execute_on env payload.db_type s p w).1 ran.safe))))
    | inr none_asked ↦ rw none_asked (Reads-refl w h)
  ]
