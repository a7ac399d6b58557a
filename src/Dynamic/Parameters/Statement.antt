-- ===== src/Dynamic/Parameters/Statement.antt =====
-- `build_bound_statement` and `_sqlalchemy_type` of app/services/query_engine/dynamic_parameters.py:
-- the statement that SQLAlchemy's `text` and `bindparams` are called for.
use data_api.Prelude.{◌≡◌, refl, Bool, true, false, List, [], ◌∷◌}
use data_api.Text.{Text}
use data_api.Dict.{Dict, keys}
use data_api.Dynamic.Parameters.{
  DynamicParameterType, string, integer, boolean, string_list, DynamicParameterDefinition,
}
use data_api.Errors.{Result, ok, err, key_error, ◌>>=◌}

-- The column types of SQLAlchemy, `date_time` with its time zone.
pub data SqlType : Type 0 where
  sql_string sql_integer sql_float sql_boolean sql_date sql_date_time : SqlType

-- `_sqlalchemy_type`, whose table has no entry for lists
unfoldable pub sqlalchemy_type : DynamicParameterType → Result SqlType
sqlalchemy_type string = ok sql_string
sqlalchemy_type integer = ok sql_integer
sqlalchemy_type DynamicParameterType.float = ok sql_float
sqlalchemy_type boolean = ok sql_boolean
sqlalchemy_type DynamicParameterType.date = ok sql_date
sqlalchemy_type DynamicParameterType.datetime = ok sql_date_time
sqlalchemy_type string_list = err key_error

pub record BindParam : Type 0 where
  pub name : Text
  pub expanding : Bool
  pub type : SqlType

pub record BoundStatement : Type 0 where
  pub sql : Text
  pub binds : List BindParam

unfoldable pub bind_param : Text → DynamicParameterType → Result BindParam
unfolding sqlalchemy_type
bind_param name string_list = ok (record { name = name; expanding = true; type = sql_string })
bind_param name type = do
  t ← sqlalchemy_type type
  ok (record { name = name; expanding = false; type = t })

-- the loop of `build_bound_statement`
unfoldable pub bind_params : Dict DynamicParameterDefinition → Result (List BindParam)
unfolding bind_param
bind_params [] = ok []
bind_params ((name, definition) ∷ definitions) = do
  b ← bind_param name definition.type
  binds ← bind_params definitions
  ok (b ∷ binds)

unfoldable pub build_bound_statement :
    Text → Dict DynamicParameterDefinition → Result BoundStatement
unfolding bind_params
build_bound_statement canonical_sql definitions = do
  binds ← bind_params definitions
  ok (record { sql = canonical_sql; binds = binds })

abbrev pub bind_names : List BindParam → List Text
bind_names [] = []
bind_names (b ∷ bs) = b.name ∷ bind_names bs

bind_param_total :
    (name : Text) (ty : DynamicParameterType)
    → (b : BindParam) × (bind_param name ty ≡ ok b) × (b.name ≡ name)
unfolding bind_param
bind_param_total name string = (_, refl, refl)
bind_param_total name integer = (_, refl, refl)
bind_param_total name DynamicParameterType.float = (_, refl, refl)
bind_param_total name boolean = (_, refl, refl)
bind_param_total name DynamicParameterType.date = (_, refl, refl)
bind_param_total name DynamicParameterType.datetime = (_, refl, refl)
bind_param_total name string_list = (_, refl, refl)

bind_params_total :
    (ds : Dict DynamicParameterDefinition)
    → (bs : List BindParam) × (bind_params ds ≡ ok bs) × (bind_names bs ≡ keys ds)
unfolding bind_params
bind_params_total [] = ([], refl, refl)
bind_params_total ((name, d) ∷ ds) =
    let (b, made, same) = bind_param_total name d.type in
    let (bs, all_made, names) = bind_params_total ds in (b ∷ bs, cc, cc)

-- A statement is built for all definitions, with a bind for each, in order, under its name: the
-- table of types is never asked for a type that it lacks.
pub build_bound_statement_total :
    (sql : Text) (ds : Dict DynamicParameterDefinition)
    → (s : BoundStatement) × (build_bound_statement sql ds ≡ ok s)
      × (s.sql ≡ sql)
      × (bind_names s.binds ≡ keys ds)
unfolding build_bound_statement
build_bound_statement_total sql ds =
    let (bs, made, names) = bind_params_total ds in
    (record { sql = sql; binds = bs }, rw made refl, refl, names)
