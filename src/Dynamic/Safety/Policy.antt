-- ===== src/Dynamic/Safety/Policy.antt =====
-- What SQL that passes the safety check is, and how other SQL is refused.
use mathlib.Core.Path.{subst}
use data_api.Prelude.{
  Option, ◌≡◌, sym, refl, ◌∙◌, Bool, true, false, not, ◌&&◌, none, some, List, [], ◌∷◌, All, arith,
  any, is_empty, Bool-cases, inl, inr,
}
use data_api.Text.{Text, strip}
use data_api.Dynamic.Names.{is_parameter_name}
use data_api.Dynamic.Safety.{
  Dialect, select, Sqlglot, ValidatedSql, is_allowed_control, validate_characters, is_forbidden,
  validate_select_tree, parse_canonical_sql, placeholders, collect_names, parse_statement,
  canonical, validate,
}
use data_api.Errors.{err, Result, Exc, ok, ◌>>=◌, >>=-eq-ok, raise_if}
use data_api.Text.Sort.{elem, sorted_set, elem-sorted_set}
use data_api.Value.{Runtime}

-- No control or formatting character but tab, line feed and carriage return.
abbrev pub IsClean : Runtime → Text → Type 0
IsClean rt s = All (λ c. (not (is_allowed_control c) && rt.is_category_c c) ≡ false) s

validate_characters-IsClean :
    (rt : Runtime) (s : Text) → validate_characters rt s ≡ ok tt → IsClean rt s
unfolding validate_characters
validate_characters-IsClean rt [] e = tt
validate_characters-IsClean rt (c ∷ s) e =
    elim (Bool-cases (not (is_allowed_control c) && rt.is_category_c c)) [
      | inl h ↦ absurd (ground (arith, h, e))
      | inr h ↦ (h, validate_characters-IsClean rt s (ground (arith, h, e)))
    ]

raise_if-eq-ok : (b : Bool) (e : Exc) → raise_if b e ≡ ok tt → b ≡ false
raise_if-eq-ok true e h = cc
raise_if-eq-ok false e h = refl

names_injective : {a b : List Text} → ok a ≡ ok b → a ≡ b
names_injective e = cc

module _ (g : Sqlglot) where
  open g use {Expression, parse, parse_one, isinstance, walk, name, sql}

  -- The text parses, in its dialect, as one SELECT with no node of a forbidden class anywhere.
  pub record IsReadOnlySelect (text : Text) (dialect : Dialect) : Type 0 where
    pub tree : Expression
    pub parsed : parse_one text dialect ≡ ok (some tree)
    pub is_select : isinstance tree select ≡ true
    pub read_only : any (is_forbidden g) (walk tree) ≡ false

  -- The names are those of the placeholders of the text, each an ASCII identifier.
  pub record AreItsParameters (text : Text) (dialect : Dialect) (names : List Text) : Type 0 where
    pub tree : Expression
    pub parsed : parse_one text dialect ≡ ok (some tree)
    pub identifiers : All (λ node. is_parameter_name (name node) ≡ true) (placeholders g tree)
    pub same_names :
        (t : Text) → elem t names ≡ any (λ node. elem t (name node ∷ [])) (placeholders g tree)

  validate_select_tree-eq-ok :
      (e : Expression)
      → validate_select_tree g e ≡ ok tt
      → (isinstance e select ≡ true) × (any (is_forbidden g) (walk e) ≡ false)
  unfolding validate_select_tree
  validate_select_tree-eq-ok e h = (ground (arith, h), ground (arith, h))

  names_cons :
      (node : Expression) (nodes : List Expression) (ms ns : List Text)
      → ok (name node ∷ ms) ≡ ok ns
      → ((t : Text) → elem t ms ≡ any (λ n. elem t (name n ∷ [])) nodes)
      → (t : Text) → elem t ns ≡ any (λ n. elem t (name n ∷ [])) (node ∷ nodes)
  unfolding elem
  names_cons node nodes ms ns same names t =
      subst (λ xs. elem t xs ≡ any (λ n. elem t (name n ∷ [])) (node ∷ nodes))
        (names_injective same) (ground (arith, names t))

  collect_names-eq-ok :
      (nodes : List Expression) (ns : List Text)
      → collect_names g nodes ≡ ok ns
      → All (λ node. is_parameter_name (name node) ≡ true) nodes
        × ((t : Text) → elem t ns ≡ any (λ node. elem t (name node ∷ [])) nodes)
  unfolding collect_names
  collect_names-eq-ok [] ns h = (tt, λ t. unfold elem in ground (arith, h))
  collect_names-eq-ok (node ∷ nodes) ns h = elim (Bool-cases (is_parameter_name (name node))) [
    | inl p ↦
        let bound : (collect_names g nodes >>= λ ms. ok (name node ∷ ms)) ≡ ok ns = rw p at h in
        let (ms, rest, same) =
          >>=-eq-ok (collect_names g nodes) (λ ms. ok (name node ∷ ms)) bound in
        let (each, names) = collect_names-eq-ok nodes ms rest in
        ((p, each), λ t. names_cons node nodes ms ns same names t)
    | inr p ↦ absurd (ground (arith, p, h))
  ]

  parse_canonical_sql-eq-ok :
      (text : Text) (dialect : Dialect) (tree : Expression)
      → parse_canonical_sql g text dialect ≡ ok tree
      → parse_one text dialect ≡ ok (some tree)
  unfolding parse_canonical_sql
  parse_canonical_sql-eq-ok text dialect tree h = answers (parse_one text dialect) refl
    where
      answers : (r : Result (Option Expression)) → parse_one text dialect ≡ r → r ≡ ok (some tree)
      answers (err x) e = absurd (ground (arith, e, h))
      answers (ok none) e = absurd (ground (arith, e, h))
      answers (ok (some x)) e = ground (arith, e, h)

  -- SQL that passes the check is clean text, and the canonical text that it is replaced by parses
  -- again, in the same dialect, as one SELECT with no forbidden node anywhere, whose placeholders
  -- are exactly the parameter names, each an ASCII identifier.
  pub validate-IsReadOnlySelect :
      (rt : Runtime) (text : Text) (dialect : Dialect) (v : ValidatedSql)
      → validate g rt text dialect ≡ ok v
      → IsClean rt text
        × IsReadOnlySelect v.canonical_sql dialect
        × AreItsParameters v.canonical_sql dialect v.parameter_names
  unfolding validate
  validate-IsReadOnlySelect rt text dialect v h =
      let (u, clean, h1) = >>=-eq-ok (validate_characters rt text) _ h in
      let (u1, full, h2) = >>=-eq-ok (raise_if (is_empty (strip text)) _) _ h1 in
      let (p, all, h2) = >>=-eq-ok (parse text dialect) _ h2 in
      let (e, one, h3) = >>=-eq-ok (parse_statement g text dialect p) _ h2 in
      let (u2, first, h4) = >>=-eq-ok (validate_select_tree g e) _ h3 in
      let (printed, made, h4) = >>=-eq-ok (canonical g e dialect) _ h4 in
      let (tree, reparsed, h5) = >>=-eq-ok (parse_canonical_sql g printed dialect) _ h4 in
      let (u3, again, h6) = >>=-eq-ok (validate_select_tree g tree) _ h5 in
      let (names, collected, h7) = >>=-eq-ok (collect_names g (placeholders g tree)) _ h6 in
      let (is_select, read_only) = validate_select_tree-eq-ok tree again in
      let (identifiers, same) = collect_names-eq-ok (placeholders g tree) names collected in
      let text' : v.canonical_sql ≡ printed = ground (arith, h7) in
      let names' : v.parameter_names ≡ sorted_set names = ground (arith, h7) in
      let parsed : parse_one v.canonical_sql dialect ≡ ok (some tree) =
        subst (λ t. parse_one t dialect ≡ ok (some tree)) (sym text')
          (parse_canonical_sql-eq-ok printed dialect tree reparsed) in
      (
        validate_characters-IsClean rt text clean,
        record { tree = tree; parsed = parsed; is_select = is_select; read_only = read_only },
        record {
          tree = tree;
          parsed = parsed;
          identifiers = identifiers;
          same_names = λ t.
              subst (λ ns. elem t ns ≡ any (λ node. elem t (name node ∷ [])) (placeholders g tree))
                (sym names') (elem-sorted_set t names ∙ same t);
        },
      )
