-- ===== src/Logging.antt =====
-- app/core/logging.py: the handlers of the root logger, the filter, and the two formatters. A request's
-- identifier is the value of the context variable, an empty one counting as none.
pub mod Laws
use data_api.Prelude.{
  ℕ, Bool, true, false, ◌*◌, ◌++◌, ◌||◌, String, Option, none, some, List, [], ◌∷◌, map, any,
  if◌then◌else◌,
}
use data_api.Text.{Text, codes, eq_text}

-- The exception of a record: its type's name, its text, and the entries of its traceback.
pub record ExcInfo : Type 0 where
  pub type_name : Option Text
  pub message : Text
  pub entries : List Text

-- request_id: the attribute that the filter sets.
pub record LogRecord : Type 0 where
  pub created : Text
  pub asctime : Text
  pub levelname : Text
  pub name : Text
  pub message : Text
  pub module_name : Text
  pub func_name : Text
  pub lineno : ℕ
  pub request_id : Option Text
  pub exc_info : Option ExcInfo

-- `value or other`, of texts
abbrev pub or_else : Option Text → Option Text → Option Text
or_else none other = other
or_else (some []) other = other
or_else (some (c ∷ s)) other = some (c ∷ s)

-- `if request_id`
abbrev pub truthy : Option Text → Option Text
truthy value = or_else value none

abbrev pub with_request_id : Option Text → LogRecord → LogRecord
with_request_id none r = r
with_request_id (some id) r = record r { request_id = some id }

-- RequestIdFilter.filter
unfoldable pub filter : Option Text → LogRecord → LogRecord
filter context r = with_request_id (truthy context) r

abbrev pub prefix_of : Option Text → Text
prefix_of none = []
prefix_of (some id) = codes "request_id=" ++ id ++ codes " "

-- TextFormatter.format, less the exception that logging.Formatter adds
unfoldable pub format_text : Option Text → LogRecord → Text
format_text context r =
    r.asctime
    ++ codes " "
    ++ r.levelname
    ++ codes " ["
    ++ r.name
    ++ codes "] "
    ++ prefix_of (truthy (or_else r.request_id context))
    ++ r.message

-- A value of the JSON payload; of an exception, its type, message and traceback.
pub data Json : Type 0 where
  text : Text → Json
  number : ℕ → Json
  exception : Option Text → Text → List Text → Json

-- lines_of: `entry.rstrip().splitlines()`. upper and lower: the methods of `str`. is_level: a name that
-- `setLevel` takes. opens: the folder of a log file is there or can be made, and the file be opened.
pub record Platform : Type 0 where
  pub lines_of : Text → List Text
  pub upper : Text → Text
  pub lower : Text → Text
  pub is_level : Text → Bool
  pub opens : Text → Bool

-- Where a handler writes: the standard output, or a file that is rotated.
pub data Sink : Type 0 where
  stdout : Sink
  rotating_file : Text → ℕ → ℕ → Sink

pub record Handler : Type 0 where
  pub sink : Sink
  pub is_json : Bool

pub record UvicornLogger : Type 0 where
  pub name : Text
  pub handlers : List Handler
  pub level : Text
  pub propagate : Bool

-- The root logger, the handlers that were closed, and the loggers of uvicorn. What they write is left out, so
-- also the warning that a log file does not open.
pub record Loggers : Type 0 where
  pub level : Text
  pub handlers : List Handler
  pub closed : List Handler
  pub uvicorn : List UvicornLogger

module _ (env : Platform) where
  abbrev pub concat_lines : List Text → List Text
  concat_lines [] = []
  concat_lines (entry ∷ entries) = env.lines_of entry ++ concat_lines entries

  abbrev pub id_entry : Option Text → List (String × Json)
  id_entry none = []
  id_entry (some id) = ("request_id", text id) ∷ []

  abbrev pub exception_entry : Option ExcInfo → List (String × Json)
  exception_entry none = []
  exception_entry (some e) =
      ("exception", exception e.type_name e.message (concat_lines e.entries)) ∷ []

  -- JsonFormatter.format, up to `json.dumps`
  unfoldable pub format_json : Option Text → LogRecord → List (String × Json)
  format_json context r =
      (("timestamp", text r.created)
        ∷ ("level", text r.levelname)
        ∷ ("logger", text r.name)
        ∷ ("message", text r.message)
        ∷ ("module", text r.module_name)
        ∷ ("function", text r.func_name)
        ∷ ("line", number r.lineno)
        ∷ [])
      ++ id_entry (truthy context)
      ++ exception_entry r.exc_info

  -- _build_handler
  abbrev pub build_handler : Sink → Text → Handler
  build_handler sink log_format = record {
    sink = sink;
    is_json = eq_text (env.lower log_format) (codes "json");
  }

  abbrev pub file_handlers : Option Text → ℕ → ℕ → Text → List Handler
  file_handlers none max_mb backups log_format = []
  file_handlers (some []) max_mb backups log_format = []
  file_handlers (some (c ∷ path)) max_mb backups log_format =
      if env.opens (c ∷ path)
      then build_handler (rotating_file (c ∷ path) (max_mb * 1024 * 1024) backups) log_format ∷ []
      else []

  abbrev pub uvicorn_names : List Text
  uvicorn_names = codes "uvicorn" ∷ codes "uvicorn.error" ∷ codes "uvicorn.access" ∷ []

  abbrev pub uvicorn_logger : Text → Text → UvicornLogger
  uvicorn_logger level name = record { name = name; handlers = []; level = level; propagate = true }

  -- whether it returned, or raised the ValueError of `setLevel`, which the old handlers do not survive
  unfoldable pub configure_logging : Text → Text → Option Text → ℕ → ℕ → Loggers → Bool × Loggers
  unfolding eq_text
  configure_logging level log_format log_file_path max_mb backups w =
      let bare : Loggers = record w { handlers = []; closed = w.closed ++ w.handlers } in
      if env.is_level (env.upper level)
      then (
        true,
        record bare {
          level = env.upper level;
          handlers =
              build_handler stdout log_format
              ∷ file_handlers log_file_path max_mb backups log_format;
          uvicorn = map (uvicorn_logger (env.upper level)) uvicorn_names;
        },
      )
      else (false, bare)
