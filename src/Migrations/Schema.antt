-- ===== src/Migrations/Schema.antt =====
-- The schema of the database and the operations of a revision. Tables, columns, indexes and types are
-- kept in the order of their names, so that the order of their creation is forgotten.
use Prim.Native.String.{compare}
use package.text.Mathlib.Text.{◌==◌, is_lt}
use data_api.Prelude.{
  Bool, true, false, not, String, Option, none, some, List, [], ◌∷◌, any, keep, if◌then◌else◌, ℕ,
}

-- What has names, in their order.
abbrev pub Named : Type 0 → Type 0
Named A = List (String × A)

module _ {A : Type 0} where
  unfoldable pub find : String → Named A → Option A
  find name [] = none
  find name ((n, a) ∷ entries) = let rest = find name entries in if n == name then some a else rest

  abbrev pub has : String → Named A → Bool
  has name entries = any (λ e. e.0 == name) entries

  -- the entry of the name, new or changed
  unfoldable pub set : String → A → Named A → Named A
  set name a [] = (name, a) ∷ []
  set name a ((n, b) ∷ entries) =
      let rest = set name a entries in
      if n == name
      then (name, a) ∷ entries
      else if is_lt (compare name n)
      then (name, a) ∷ (n, b) ∷ entries
      else (n, b) ∷ rest

  abbrev pub without : String → Named A → Named A
  without name entries = keep (λ e. not (e.0 == name)) entries

  unfoldable pub in_order : Named A → Named A
  unfolding set
  in_order [] = []
  in_order ((name, a) ∷ entries) = set name a (in_order entries)

pub data ColumnType : Type 0 where
  string : ℕ → ColumnType
  text boolean integer uuid datetime_tz jsonb : ColumnType
  enum : String → List String → ColumnType

pub data Default : Type 0 where
  literal expression : String → Default

pub record Column : Type 0 where
  pub type : ColumnType
  pub nullable : Bool
  pub server_default : Option Default

pub record Index : Type 0 where
  pub columns : List String
  pub unique : Bool

-- of one column, to one column
pub record ForeignKey : Type 0 where
  pub table : String
  pub column : String
  pub ondelete : String

pub record Table : Type 0 where
  pub columns : Named Column
  pub primary_key : List String
  pub foreign_keys : Named ForeignKey
  pub checks : Named String
  pub uniques : Named (List String)
  pub indexes : Named Index

pub record Schema : Type 0 where
  pub tables : Named Table
  pub enums : Named (List String)

abbrev pub empty_schema : Schema
empty_schema = record { tables = []; enums = [] }

pub data Constraint : Type 0 where
  primary_key : List String → Constraint
  foreign_key : String → ForeignKey → Constraint
  check : String → String → Constraint
  unique : String → List String → Constraint

-- The raw SQL of the revisions: a change of rows that reads and writes these columns; what is dropped
-- where it exists; and the renaming of the first of some columns that exists, unless the new name does.
pub data Statement : Type 0 where
  update_rows : String → List String → Statement
  drop_index_if_exists : String → Statement
  drop_column_if_exists : String → String → Statement
  rename_first : String → List String → String → Statement

-- The functions of `op`, and `create` and `drop` of an ENUM with `checkfirst`. alter_column has the
-- column's new name, if it gets one, and whether it takes NULL.
pub data Operation : Type 0 where
  create_table : String → List (String × Column) → List Constraint → Operation
  drop_table : String → Operation
  add_column : String → String → Column → Operation
  drop_column : String → String → Operation
  alter_column : String → String → Option String → Bool → Operation
  create_index : String → String → List String → Bool → Operation
  drop_index : String → String → Operation
  create_enum : String → List String → Operation
  drop_enum : String → Operation
  execute : Statement → Operation

abbrev pub required : ColumnType → Column
required type = record { type = type; nullable = false; server_default = none }

abbrev pub optional : ColumnType → Column
optional type = record { type = type; nullable = true; server_default = none }

abbrev pub defaulted : ColumnType → Default → Column
defaulted type default = record { type = type; nullable = false; server_default = some default }

abbrev pub to_id : String → String → ForeignKey
to_id table ondelete = record { table = table; column = "id"; ondelete = ondelete }

-- the columns of every table with an id of its own
abbrev pub id_and_times : Named Column
id_and_times =
    ("id", required uuid)
    ∷ ("created_at", defaulted datetime_tz (expression "now()"))
    ∷ ("updated_at", defaulted datetime_tz (expression "now()"))
    ∷ []

-- A file of alembic/versions.
pub record Revision : Type 0 where
  pub revision : String
  pub down_revision : Option String
  pub upgrade : List Operation
  pub downgrade : List Operation
