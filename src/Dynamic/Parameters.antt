-- ===== src/Dynamic/Parameters.antt =====
-- app/services/query_engine/dynamic_parameters.py: the definitions of a route's parameters, the
-- contract between SQL and definitions, and the casts of supplied values.
pub mod Errors
pub mod Cast
pub mod Contract
pub mod Values
pub mod Statement
use data_api.Prelude.{ℕ, Bool, true, false, ◌&&◌, not, Option, none, some, String}
use data_api.Text.{Text}
use data_api.Value.{Value, is_null}

pub data DynamicParameterType : Type 0 where
  string integer float boolean date datetime string_list : DynamicParameterType

-- the value of the StrEnum
abbrev pub type_value : DynamicParameterType → String
type_value DynamicParameterType.string = "string"
type_value DynamicParameterType.integer = "integer"
type_value DynamicParameterType.float = "float"
type_value DynamicParameterType.boolean = "boolean"
type_value DynamicParameterType.date = "date"
type_value DynamicParameterType.datetime = "datetime"
type_value DynamicParameterType.string_list = "string_list"

-- `default` is `null` where there is none.
pub record DynamicParameterDefinition : Type 0 where
  pub type : DynamicParameterType
  pub required : Bool
  pub default : Value
  pub description : Text
