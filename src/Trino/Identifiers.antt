-- ===== src/Trino/Identifiers.antt =====
-- app/utils/sql.py: the quoting of identifiers.
pub mod Quoted
use data_api.Prelude.{Bool, not, map, all, ◌++◌, [], ◌∷◌, if◌then◌else◌}
use data_api.Text.{Text, split}
use data_api.Dynamic.Names.{is_parameter_name}
use data_api.Errors.{value_error, Result, ok, err}
use data_api.Text.Laws.{join}

-- `IDENTIFIER_PATH_PATTERN`: parts like a parameter's name, with dots between them
unfoldable pub is_identifier_path : Text → Bool
unfolding is_parameter_name split
is_identifier_path identifier_path = all is_parameter_name (split b'.' identifier_path)

abbrev pub quote : Text → Text
quote part = b'"' ∷ (part ++ b'"' ∷ [])

unfoldable pub quote_identifier_path : Text → Result Text
unfolding is_identifier_path split
quote_identifier_path identifier_path =
    if not (is_identifier_path identifier_path)
    then err value_error
    else ok (join b'.' (map quote (split b'.' identifier_path)))
