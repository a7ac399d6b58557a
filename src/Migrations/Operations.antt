-- ===== src/Migrations/Operations.antt =====
-- What the operations of alembic, and the SQL of the revisions, do to a schema. Rows are not modelled: an
-- operation fails, as `none`, only for what the schema is.
use package.text.Mathlib.Text.{◌==◌}
use data_api.Prelude.{
  Bool, true, false, not, ◌&&◌, ◌||◌, String, Option, none, some, List, [], ◌∷◌, map, any, all,
  keep, if◌then◌else◌,
}
use data_api.Migrations.Schema.{
  execute, drop_enum, create_enum, drop_index, create_index, alter_column, unique, rename_first,
  drop_column, drop_column_if_exists, check, add_column, foreign_key, drop_table,
  drop_index_if_exists, update_rows, primary_key, enum, create_table, Named, find, has, set,
  without, in_order, ColumnType, Column, Index, Table, Schema, Constraint, Statement, Operation,
}

abbrev pub guard : {A : Type 0} → Bool → Option A → Option A
guard true o = o
guard false o = none

infixl 5 ◌>>=◌
abbrev pub ◌>>=◌ : {A B : Type 0} → Option A → (A → Option B) → Option B
none >>= f = none
some a >>= f = f a

abbrev pub constrain : List Constraint → Table → Table
constrain [] t = t
constrain (primary_key columns ∷ cs) t = constrain cs (record t { primary_key = columns })
constrain (foreign_key column key ∷ cs) t =
    constrain cs (record t { foreign_keys = set column key t.foreign_keys })
constrain (check name condition ∷ cs) t =
    constrain cs (record t { checks = set name condition t.checks })
constrain (unique name columns ∷ cs) t =
    constrain cs (record t { uniques = set name columns t.uniques })

unfoldable pub new_table : List (String × Column) → List Constraint → Table
unfolding in_order set
new_table columns constraints = constrain constraints (record {
  columns = in_order columns;
  primary_key = [];
  foreign_keys = [];
  checks = [];
  uniques = [];
  indexes = [];
})

-- the types of a new table's columns, which are created where they are missing
abbrev pub create_types : List (String × Column) → Named (List String) → Named (List String)
create_types [] enums = enums
create_types ((name, column) ∷ columns) enums = create_type column.type (create_types columns enums)
  where
    create_type : ColumnType → Named (List String) → Named (List String)
    create_type (enum n labels) es = if has n es then es else set n labels es
    create_type t es = es

abbrev pub has_type : Named (List String) → ColumnType → Bool
has_type enums (enum n labels) = has n enums
has_type enums t = true

abbrev pub is_type : String → ColumnType → Bool
is_type name (enum n labels) = n == name
is_type name t = false

abbrev pub has_column : String → String → Schema → Bool
has_column table column s = any (λ t. t.0 == table && has column t.1.columns) s.tables

abbrev pub mentions : String → List String → Bool
mentions column columns = any (λ c. c == column) columns

abbrev pub rename : String → String → String → String
rename old new name = if name == old then new else name

abbrev pub is_index : String → Schema → Bool
is_index name s = any (λ t. has name t.1.indexes || has name t.1.uniques) s.tables

abbrev pub without_column : String → Table → Table
without_column column t = record t {
  columns = without column t.columns;
  foreign_keys = without column t.foreign_keys;
  uniques = keep (λ u. not (mentions column u.1)) t.uniques;
  indexes = keep (λ i. not (mentions column i.1.columns)) t.indexes;
}

abbrev pub rename_index : String → String → Index → Index
rename_index old new i = record i { columns = map (rename old new) i.columns }

abbrev pub with_new_name : String → String → Table → Table
unfolding in_order
with_new_name old new t = record t {
  columns = in_order (map (λ c. (rename old new c.0, c.1)) t.columns);
  primary_key = map (rename old new) t.primary_key;
  foreign_keys = in_order (map (λ k. (rename old new k.0, k.1)) t.foreign_keys);
  uniques = map (λ u. (u.0, map (rename old new) u.1)) t.uniques;
  indexes = map (λ i. (i.0, rename_index old new i.1)) t.indexes;
}

-- a table changes, if it is there
unfoldable pub change_table : String → (Table → Option Table) → Schema → Option Schema
unfolding find set
change_table name change s = do
  t ← find name s.tables
  t' ← change t
  some (record s { tables = set name t' s.tables })

-- another table has a key to the table
abbrev pub is_referenced : String → Schema → Bool
is_referenced name s =
    any (λ t. not (t.0 == name) && any (λ k. k.1.table == name) t.1.foreign_keys) s.tables

-- a table has a key to the column
abbrev pub is_target : String → String → Schema → Bool
is_target table column s =
    any (λ t. any (λ k. k.1.table == table && k.1.column == column) t.1.foreign_keys) s.tables

unfoldable pub drop_column_of : String → String → Schema → Option Schema
unfolding change_table
drop_column_of table column s =
    guard (has_column table column s && not (is_target table column s))
      (change_table table (λ t. some (without_column column t)) s)

unfoldable pub rename_column : String → String → String → Schema → Option Schema
unfolding change_table
rename_column table old new s =
    guard (has_column table old s && not (has_column table new s) && not (is_target table old s))
      (change_table table (λ t. some (with_new_name old new t)) s)

unfoldable pub set_nullable : String → String → Bool → Schema → Option Schema
unfolding change_table find set
set_nullable table column nullable s =
    change_table table
      (λ t. do
        c ← find column t.columns
        some (record t { columns = set column (record c { nullable = nullable }) t.columns }))
      s

abbrev pub without_index : String → Schema → Schema
without_index name s = record s {
  tables = map (λ t. (t.0, record (t.1) { indexes = without name t.1.indexes })) s.tables;
}

abbrev pub rename_first_of : String → List String → String → Schema → Option Schema
unfolding rename_column
rename_first_of table [] new s = some s
rename_first_of table (old ∷ olds) new s =
    let rest = rename_first_of table olds new s in
    if has_column table old s && not (has_column table new s)
    then rename_column table old new s
    else rest

unfoldable pub run_statement : Statement → Schema → Option Schema
unfolding drop_column_of rename_first_of
run_statement (update_rows table columns) s =
    guard (all (λ c. has_column table c s) columns) (some s)
run_statement (drop_index_if_exists name) s = some (without_index name s)
run_statement (drop_column_if_exists table column) s =
    if has_column table column s then drop_column_of table column s else some s
run_statement (rename_first table olds new) s = rename_first_of table olds new s

unfoldable pub apply : Operation → Schema → Option Schema
unfolding new_table change_table drop_column_of rename_column set_nullable run_statement find set
apply (create_table name columns constraints) s =
    let t = new_table columns constraints in
    guard
      (not (has name s.tables)
        && all (λ c. has c t.columns) t.primary_key
        && all (λ k. has k.0 t.columns && has_column k.1.table k.1.column s) t.foreign_keys
        && all (λ u. not (is_index u.0 s) && all (λ c. has c t.columns) u.1) t.uniques)
      (some (record { tables = set name t s.tables; enums = create_types columns s.enums }))
apply (drop_table name) s =
    guard (has name s.tables && not (is_referenced name s))
      (some (record s { tables = without name s.tables }))
apply (add_column table name column) s =
    guard (not (has_column table name s) && has_type s.enums column.type)
      (change_table table (λ t. some (record t { columns = set name column t.columns })) s)
apply (drop_column table name) s = drop_column_of table name s
apply (alter_column table name none nullable) s = set_nullable table name nullable s
apply (alter_column table name (some new) nullable) s =
    set_nullable table name nullable s >>= λ s'. rename_column table name new s'
apply (create_index name table columns is_unique) s =
    guard (not (is_index name s) && all (λ c. has_column table c s) columns) (
      change_table table
        (λ t. some (record t {
          indexes = set name (record { columns = columns; unique = is_unique }) t.indexes;
        }))
        s)
apply (drop_index name table) s =
    change_table table
      (λ t. guard (has name t.indexes) (some (record t { indexes = without name t.indexes }))) s
apply (create_enum name labels) s =
    some (if has name s.enums then s else record s { enums = set name labels s.enums })
apply (drop_enum name) s =
    guard (not (any (λ t. any (λ c. is_type name c.1.type) t.1.columns) s.tables))
      (some (record s { enums = without name s.enums }))
apply (execute statement) s = run_statement statement s

unfoldable pub apply_all : List Operation → Schema → Option Schema
unfolding apply
apply_all [] s = some s
apply_all (o ∷ os) s = apply o s >>= λ s'. apply_all os s'
