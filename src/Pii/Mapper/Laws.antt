-- ===== src/Pii/Mapper/Laws.antt =====
-- What the mapped rows hold.
use mathlib.Core.Path.{subst, ap₂}
use data_api.Prelude.{
  ◌≡◌, inl, inr, refl, sym, ap, ◌∙◌, is_empty, true, false, Option, none, some, List, [], ◌∷◌, ◌++◌,
  arith, if◌then◌else◌, Bool-cases,
}
use data_api.Text.{Text, eq_text, eq_text_iff, eq_text_refl}
use data_api.Dict.{Dict, get, keys, get-put, get_of_not-elem, HasDistinctKeys}
use data_api.Errors.{ok}
use data_api.Pii.Mapper.{
  MissingPiiMapping, Row, map_value, map_row, map_rows, map_pii_fields, missing_if,
}
use data_api.Pii.Rules.{transform_by_token_length, PiiColumnRule, QuerySpec, pii_columns}
use data_api.Pii.Rules.Laws.{IsMapped, transform_by_token_length-IsMapped}
use data_api.Text.Sort.{elem}
use data_api.Value.{Runtime, Value, null, is_null}

-- The value that a rule leaves in its column: None stays None.
abbrev pub ruled : Dict Text → Option PiiColumnRule → Option Value → Option Value
ruled cache none v = v
ruled cache (some rule) none = none
ruled cache (some rule) (some v) = some (if is_null v then v else rule.transformer v cache)

get-map_value :
    (cache : Dict Text) (k : Text) (rule : PiiColumnRule) (row : Row) (j : Text) (o : Option Value)
    → get row k ≡ o
    → get (map_value cache k rule row o).0 j
      ≡ (if eq_text k j then ruled cache (some rule) (get row j) else get row j)
unfolding map_value
get-map_value cache k rule row j none e = ground (arith, eq_text_iff k j)
get-map_value cache k rule row j (some v) e =
    ground (arith, eq_text_iff k j, get-put row k j (rule.transformer v cache))

-- A mapped row holds, in each column, what the column's rule makes of its value, and in the columns
-- without a rule what it held before.
get-map_row :
    (cache : Dict Text) (rules : Dict PiiColumnRule) (row : Row) (j : Text)
    → HasDistinctKeys rules
    → get (map_row cache rules row).0 j ≡ ruled cache (get rules j) (get row j)
unfolding map_row get
get-map_row cache [] row j d = refl
get-map_row cache ((k, rule) ∷ rules) row j (new, d) =
    get-map_row cache rules (map_value cache k rule row (get row k)).0 j d
    ∙ rw (get-map_value cache k rule row j (get row k) refl) (elim (Bool-cases (eq_text k j)) [
      | inl same ↦ rw same (rw (get_of_not-elem rules j (other_key same)) refl)
      | inr other ↦ rw other refl
    ])
  where
    other_key : eq_text k j ≡ true → elem j (keys rules) ≡ false
    other_key same = subst (λ t. elem t (keys rules) ≡ false) ((eq_text_iff k j).0 same) new

-- The rows correspond one to one, in their order.
abbrev pub Pairs : (Row → Row → Type 0) → List Row → List Row → Type 0
Pairs R [] [] = Unit
Pairs R (x ∷ xs) (y ∷ ys) = R x y × Pairs R xs ys
Pairs R [] (y ∷ ys) = ⊥
Pairs R (x ∷ xs) [] = ⊥

abbrev pub IsRuled : Dict Text → Dict PiiColumnRule → Row → Row → Type 0
IsRuled cache rules row row' = (j : Text) → get row' j ≡ ruled cache (get rules j) (get row j)

map_rows-Pairs :
    (cache : Dict Text) (rules : Dict PiiColumnRule) (rows : List Row)
    → HasDistinctKeys rules
    → Pairs (IsRuled cache rules) rows (map_rows cache rules rows).0
unfolding map_rows
map_rows-Pairs cache rules [] d = tt
map_rows-Pairs cache rules (row ∷ rows) d =
    (λ j. get-map_row cache rules row j d, map_rows-Pairs cache rules rows d)

-- The mappings that one rule misses in a row, read off the row as it came from the database.
abbrev missed : Dict Text → Text → PiiColumnRule → Option Value → List MissingPiiMapping
missed cache k rule none = []
missed cache k rule (some v) =
    if is_null v then [] else missing_if (is_null (rule.transformer v cache)) k v

-- The mappings that the rules miss in a row.
abbrev pub missed_in_row : Dict Text → Dict PiiColumnRule → Row → List MissingPiiMapping
missed_in_row cache [] row = []
missed_in_row cache ((k, rule) ∷ rules) row =
    missed cache k rule (get row k) ++ missed_in_row cache rules row

-- The mappings that the rules miss in the rows.
abbrev pub missed_in_rows : Dict Text → Dict PiiColumnRule → List Row → List MissingPiiMapping
missed_in_rows cache rules [] = []
missed_in_rows cache rules (row ∷ rows) =
    missed_in_row cache rules row ++ missed_in_rows cache rules rows

missed-map_value :
    (cache : Dict Text) (k : Text) (rule : PiiColumnRule) (row : Row) (o : Option Value)
    → (map_value cache k rule row o).1 ≡ missed cache k rule o
unfolding map_value
missed-map_value cache k rule row none = refl
missed-map_value cache k rule row (some v) = ground arith

missed_in_row_congr :
    (cache : Dict Text) (rules : Dict PiiColumnRule) (row row' : Row)
    → ((j : Text) → elem j (keys rules) ≡ true → get row' j ≡ get row j)
    → missed_in_row cache rules row' ≡ missed_in_row cache rules row
missed_in_row_congr cache [] row row' same = refl
missed_in_row_congr cache ((k, rule) ∷ rules) row row' same =
    ap₂ (λ xs ys. xs ++ ys) (ap (missed cache k rule) (same k head_key))
      (missed_in_row_congr cache rules row row' (λ j h. same j (tail_key j h)))
  where
    head_key : elem k (keys ((k, rule) ∷ rules)) ≡ true
    head_key = unfold elem in rw (eq_text_refl k) refl

    tail_key : (j : Text) → elem j (keys rules) ≡ true → elem j (keys ((k, rule) ∷ rules)) ≡ true
    tail_key j h = unfold elem in ground arith

missed-map_row :
    (cache : Dict Text) (rules : Dict PiiColumnRule) (row : Row)
    → HasDistinctKeys rules
    → (map_row cache rules row).1 ≡ missed_in_row cache rules row
unfolding map_row
missed-map_row cache [] row d = refl
missed-map_row cache ((k, rule) ∷ rules) row (new, d) =
    ap₂ (λ xs ys. xs ++ ys) (missed-map_value cache k rule row (get row k))
      (missed-map_row cache rules row' d ∙ missed_in_row_congr cache rules row row' others)
  where
    row' : Row
    row' = (map_value cache k rule row (get row k)).0

    others : (j : Text) → elem j (keys rules) ≡ true → get row' j ≡ get row j
    others j h =
        ground (arith, get-map_value cache k rule row j (get row k) refl, eq_text_iff k j, new)

missed-map_rows :
    (cache : Dict Text) (rules : Dict PiiColumnRule) (rows : List Row)
    → HasDistinctKeys rules
    → (map_rows cache rules rows).1 ≡ missed_in_rows cache rules rows
unfolding map_rows
missed-map_rows cache rules [] d = refl
missed-map_rows cache rules (row ∷ rows) d =
    ap₂ (λ xs ys. xs ++ ys) (missed-map_row cache rules row d) (missed-map_rows cache rules rows d)

-- Where the spec has rules, one for a column at most, the mapping succeeds; the rows come back one to one, each column with
-- what its rule makes of it and the others as they were; and the missing mappings are those that the
-- rules miss in the rows as they came, in order.
pub map_pii_fields_lem :
    {S : Type 0} (cache : Dict Text) (rows : List Row) (spec : QuerySpec S)
    → HasDistinctKeys spec.column_pii_rules
    → is_empty (pii_columns spec) ≡ false
    → (rows' : List Row) × (map_pii_fields cache rows spec
        ≡ ok (rows', missed_in_rows cache spec.column_pii_rules rows))
      × Pairs (IsRuled cache spec.column_pii_rules) rows rows'
unfolding map_pii_fields
map_pii_fields_lem cache [] spec d h = ([], rw h refl, tt)
map_pii_fields_lem cache (row ∷ rows) spec d h = (
  (map_rows cache spec.column_pii_rules (row ∷ rows)).0,
  rw h (
      ap (λ m. ok ((map_rows cache spec.column_pii_rules (row ∷ rows)).0, m))
        (missed-map_rows cache spec.column_pii_rules (row ∷ rows) d)),
  map_rows-Pairs cache spec.column_pii_rules (row ∷ rows) d,
)

null_of_is_null : (v : Value) → is_null v ≡ true → v ≡ null
null_of_is_null null h = refl
null_of_is_null v h = cc

IsMapped-of_ruled :
    (rt : Runtime) (cache : Dict Text) (v : Value) (o : Option Value)
    → some v ≡ ruled cache (some (record { transformer = transform_by_token_length rt })) o
    → IsMapped cache v
IsMapped-of_ruled rt cache v none e = cc
IsMapped-of_ruled rt cache v (some w) e = elim (Bool-cases (is_null w)) [
  | inl n ↦ let same : v ≡ w = ground (arith, e, n) in inl (same ∙ null_of_is_null w n)
  | inr n ↦
      let same : v ≡ transform_by_token_length rt w cache = ground (arith, e, n) in
      subst (IsMapped cache) (sym same) (transform_by_token_length-IsMapped rt w cache)
]

-- Under the token rule a served column holds null or a mapped value with at most one more
-- character, whatever the database returned: `row'` is a row that the mapping made of `row`.
pub ruled-IsMapped :
    (rt : Runtime) (cache : Dict Text) (rules : Dict PiiColumnRule) (row row' : Row) (j : Text)
    (v : Value)
    → IsRuled cache rules row row'
    → get rules j ≡ some (record { transformer = transform_by_token_length rt })
    → get row' j ≡ some v
    → IsMapped cache v
ruled-IsMapped rt cache rules row row' j v h r e =
    IsMapped-of_ruled rt cache v (get row j)
      (sym e ∙ h j ∙ ap (λ rule. ruled cache rule (get row j)) r)
