-- ===== src/Dynamic/Safety/Answers.antt =====
-- How the safety check refuses SQL, and what it does not catch: the errors of `SqlSafetyValidator.validate`
-- in app/services/query_engine/sql_safety.py.
use data_api.Prelude.{
  ap, ◌∙◌, arith, ◌⊎◌, Option, ◌≡◌, refl, Bool, true, false, not, ◌&&◌, none, some, List, [], ◌∷◌,
  any, is_empty, Bool-cases, inl, inr,
}
use data_api.Text.{Text, strip}
use data_api.Dynamic.Names.{is_parameter_name}
use data_api.Dynamic.Parameters.Values.ClientErrors.{Is422, SucceedsOr422, bind_lem}
use data_api.Dynamic.Safety.{
  ValidatedSql, postgres, trino, Dialect, select, Sqlglot, is_allowed_control, validate_characters,
  is_forbidden, validate_select_tree, parse_canonical_sql, placeholders, collect_names,
  parse_statement, canonical, validate, Parsed, is_colon, statements, parse_error, sqlglot_error,
}
use data_api.Errors.{err, Result, Exc, ok, ◌>>=◌, ◌>>◌, raise_if}
use data_api.Text.Sort.{sorted_set}
use data_api.Value.{Runtime}

validate_characters-422 : (rt : Runtime) (s : Text) → SucceedsOr422 (validate_characters rt s)
unfolding validate_characters
validate_characters-422 rt [] = tt
validate_characters-422 rt (c ∷ s) =
    elim (Bool-cases (not (is_allowed_control c) && rt.is_category_c c)) [
      | inl h ↦ rw h refl
      | inr h ↦ rw h (validate_characters-422 rt s)
    ]

raise_if-422 : (b : Bool) (e : Exc) → Is422 e → SucceedsOr422 (raise_if b e)
raise_if-422 true e h = h
raise_if-422 false e h = tt

module _ (g : Sqlglot) where
  open g use {Expression, parse, parse_one, isinstance, walk, name, sql}

  parse_statement-422 :
      (text : Text) (dialect : Dialect) (p : Parsed Expression)
      → SucceedsOr422 (parse_statement g text dialect p)
  unfolding parse_statement
  parse_statement-422 text dialect (statements []) = refl
  parse_statement-422 text dialect (statements (none ∷ es)) = refl
  parse_statement-422 text dialect (statements (some e ∷ [])) = tt
  parse_statement-422 text dialect (statements (some e ∷ f ∷ es)) = refl
  parse_statement-422 text dialect (parse_error highlights) =
      elim (Bool-cases (any is_colon highlights)) [ inl h ↦ rw h refl | inr h ↦ rw h refl ]
  parse_statement-422 text dialect sqlglot_error = refl

  validate_select_tree-422 : (e : Expression) → SucceedsOr422 (validate_select_tree g e)
  unfolding validate_select_tree
  validate_select_tree-422 e =
      bind_lem (raise_if (not (isinstance e select)) _) _ (raise_if-422 _ _ refl)
        (λ u. raise_if-422 (any (is_forbidden g) (walk e)) _ refl)

  collect_names-422 : (nodes : List Expression) → SucceedsOr422 (collect_names g nodes)
  unfolding collect_names
  collect_names-422 [] = tt
  collect_names-422 (node ∷ nodes) = elim (Bool-cases (is_parameter_name (name node))) [
    | inl h ↦ rw h (bind_lem (collect_names g nodes) _ (collect_names-422 nodes) (λ ns. tt))
    | inr h ↦ rw h refl
  ]

  -- sqlglot raises the exception, which is no SqlglotError: when it parses the text; when it prints the
  -- one statement that it parsed; or when it parses the canonical SQL that is made of what it printed.
  pub data Raises (text : Text) (dialect : Dialect) (e : Exc) : Type 0 where
    in_parse : parse text dialect ≡ err e → Raises text dialect e
    in_sql :
        (tree : Expression)
        → parse text dialect ≡ ok (statements (some tree ∷ []))
        → sql tree dialect ≡ err e
        → Raises text dialect e
    in_parse_one :
        (tree : Expression) (canonical_sql : Text)
        → parse text dialect ≡ ok (statements (some tree ∷ []))
        → canonical g tree dialect ≡ ok canonical_sql
        → parse_one canonical_sql dialect ≡ err e
        → Raises text dialect e

  -- It returns, is refused with a 422, or raises what sqlglot raises.
  abbrev pub Answers : {A : Type 0} → Text → Dialect → Result A → Type 0
  Answers text dialect (ok a) = Unit
  Answers text dialect (err e) = Is422 e ⊎ Raises text dialect e

  module _ (text : Text) (dialect : Dialect) where
    refused : {A : Type 0} (r : Result A) → SucceedsOr422 r → Answers text dialect r
    refused (ok a) h = tt
    refused (err e) h = inl h

    raised :
        {A : Type 0} (r : Result A)
        → ((e : Exc) → r ≡ err e → Raises text dialect e)
        → Answers text dialect r
    raised (ok a) h = tt
    raised (err e) h = inr (h e refl)

    bind-Answers :
        {A B : Type 0} (r : Result A) (f : A → Result B)
        → Answers text dialect r
        → ((a : A) → r ≡ ok a → Answers text dialect (f a))
        → Answers text dialect (r >>= f)
    bind-Answers (ok a) f h k = k a refl
    bind-Answers (err e) f h k = h

    parse_statement-eq-ok :
        (p : Parsed Expression) (tree : Expression)
        → parse_statement g text dialect p ≡ ok tree
        → p ≡ statements (some tree ∷ [])
    unfolding parse_statement
    parse_statement-eq-ok (statements []) tree h = cc
    parse_statement-eq-ok (statements (none ∷ es)) tree h = cc
    parse_statement-eq-ok (statements (some e ∷ [])) tree h = cc
    parse_statement-eq-ok (statements (some e ∷ f ∷ es)) tree h = cc
    parse_statement-eq-ok (parse_error highlights) tree h =
        elim (Bool-cases (any is_colon highlights)) [
          | inl e ↦ absurd (ground (arith, e, h))
          | inr e ↦ absurd (ground (arith, e, h))
        ]
    parse_statement-eq-ok sqlglot_error tree h = cc

    -- What follows the parsing of the one statement.
    module _ (tree : Expression)
        (parsed : parse text dialect ≡ ok (statements (some tree ∷ []))) where
      parse_canonical_sql-Answers :
          (canonical_sql : Text)
          → canonical g tree dialect ≡ ok canonical_sql
          → Answers text dialect (parse_canonical_sql g canonical_sql dialect)
      unfolding parse_canonical_sql
      parse_canonical_sql-Answers canonical_sql made =
          answers (parse_one canonical_sql dialect) refl
        where
          answers :
              (r : Result (Option Expression))
              → parse_one canonical_sql dialect ≡ r
              → Answers text dialect (parse_canonical_sql g canonical_sql dialect)
          answers (err x) e =
              rw (e, parse_canonical_sql) (inr (in_parse_one tree canonical_sql parsed made e))
          answers (ok none) e = rw (e, parse_canonical_sql) (inl refl)
          answers (ok (some x)) e = rw (e, parse_canonical_sql) tt

      reparsed-Answers :
          (canonical_sql : Text)
          → canonical g tree dialect ≡ ok canonical_sql
          → Answers {A = ValidatedSql} text dialect (
              parse_canonical_sql g canonical_sql dialect >>= λ reparsed.
              validate_select_tree g reparsed
              >> (collect_names g (placeholders g reparsed) >>= λ names.
                  ok
                    (record { canonical_sql = canonical_sql; parameter_names = sorted_set names })))
      reparsed-Answers canonical_sql made =
          bind-Answers (parse_canonical_sql g canonical_sql dialect) _
            (parse_canonical_sql-Answers canonical_sql made)
            (λ reparsed _.
              bind-Answers (validate_select_tree g reparsed) _
                (refused _ (validate_select_tree-422 reparsed))
                (λ u _.
                  bind-Answers (collect_names g (placeholders g reparsed)) _
                    (refused _ (collect_names-422 (placeholders g reparsed))) (λ ns _. tt)))

  canonical-Answers :
      (text : Text) (tree : Expression) (dialect : Dialect)
      → parse text dialect ≡ ok (statements (some tree ∷ []))
      → Answers text dialect (canonical g tree dialect)
  unfolding canonical
  canonical-Answers text tree trino parsed =
      raised text trino (sql tree trino) (λ e h. in_sql tree parsed h)
  canonical-Answers text tree postgres parsed =
      bind-Answers text postgres (sql tree postgres) _
        (raised text postgres (sql tree postgres) (λ e h. in_sql tree parsed h)) (λ s _. tt)

  -- The check returns, or refuses the text with an error of 422, or raises an exception of sqlglot's
  -- that is no SqlglotError: of `parse` on the text, of `sql` on the one statement that it parsed, or of
  -- `parse_one` on the canonical SQL of that statement.
  pub validate-Answers :
      (rt : Runtime) (text : Text) (dialect : Dialect)
      → Answers text dialect (validate g rt text dialect)
  unfolding validate
  validate-Answers rt text dialect =
      bind-Answers text dialect (validate_characters rt text) _
        (refused text dialect _ (validate_characters-422 rt text))
        (λ u _.
          bind-Answers text dialect (raise_if (is_empty (strip text)) _) _
            (refused text dialect _ (raise_if-422 _ _ refl))
            (λ u _.
              bind-Answers text dialect (parse text dialect) _
                (raised text dialect _ (λ e h. in_parse h))
                (λ p all.
                  bind-Answers text dialect (parse_statement g text dialect p) _
                    (refused text dialect _ (parse_statement-422 text dialect p))
                    (λ tree one.
                      let parsed = all ∙ ap ok (parse_statement-eq-ok text dialect p tree one) in
                      bind-Answers text dialect (validate_select_tree g tree) _
                        (refused text dialect _ (validate_select_tree-422 tree))
                        (λ u _.
                          bind-Answers text dialect (canonical g tree dialect) _
                            (canonical-Answers text tree dialect parsed)
                            (λ s made. reparsed-Answers text dialect tree parsed s made))))))
