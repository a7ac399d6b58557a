-- ===== src/Http/Messages.antt =====
-- Requests, responses and exceptions as the middlewares of app/main.py see them.
use data_api.Prelude.{ℕ, Bool, String, Option, List}
use data_api.Text.{Text}
use data_api.Errors.{AppError, Detail, Piece}
use data_api.Value.{Value}

-- x_request_id: the header X-Request-ID.
pub record Request : Type 0 where
  pub method : Text
  pub path : Text
  pub x_request_id : Option Text

-- The `loc` of an error of pydantic: a tuple, a list, or another value.
pub data Location : Type 0 where
  tuple listed : List Value → Location
  single : Value → Location

-- An error of pydantic, a mapping that may lack each of these keys.
pub record RawError : Type 0 where
  pub loc : Option Location
  pub msg : Option Value
  pub type : Option Value
  pub input : Option Value

pub record FormattedError : Type 0 where
  pub field : Text
  pub message : Text
  pub type : Text
  pub input : Option Value

-- `details or {}`
pub data Details : Type 0 where
  fields : List (String × Detail) → Details
  errors : List FormattedError → Details
  timeout_seconds : ℕ → Details

pub record ErrorBody : Type 0 where
  pub code : String
  pub message : List Piece
  pub details : Details
  pub request_id : Option Text

-- What a route returns, what `error_response` returns, and the page of Starlette's debug mode.
pub data Body : Type 0 where
  content : Text → Body
  error_body : ErrorBody → Body
  debug_page : Text → Body

pub record Response : Type 0 where
  pub status_code : ℕ
  pub x_request_id : Option Text
  pub body : Body

-- An exception by its class: the two kinds of validation errors, an HTTPException, a SQLAlchemyError, a
-- TimeoutError, and any other, with the text of what it says.
pub data Raised : Type 0 where
  app_error : AppError → Raised
  request_validation_error validation_error : List RawError → Raised
  http_exception : ℕ → Raised
  sqlalchemy_error : Text → Raised
  timeout_error : Raised
  other : Text → Raised

pub data Outcome : Type 0 where
  returned : Response → Outcome
  raised : Raised → Outcome

pub data Level : Type 0 where
  info warning error : Level

-- request_id: what the context variable held when the line was written.
pub record LogLine : Type 0 where
  pub level : Level
  pub event : String
  pub request_id : Option Text

-- What a call of an application does: its outcome, what `request.state.request_id` is afterwards, the lines
-- it wrote, and the milliseconds it took.
pub record Run : Type 0 where
  pub outcome : Outcome
  pub state : Option Text
  pub logs : List LogLine
  pub elapsed : ℕ

-- An application gets the request, its context (a copy of the caller's) and the state, which is shared.
abbrev pub Application : Type 0
Application = Request → Option Text → Option Text → Run

-- The code around the program. decode: str(value). is_true: bool(value). is_encodable: the value has a JSON
-- text, as NaN has none. phrase: HTTPStatus(code).phrase, where `none` is a ValueError. preflight: what
-- CORSMiddleware answers without calling the application. debug_page: what ServerErrorMiddleware shows of an
-- exception in debug mode. is_instrumented: the Instrumentator calls `log_request_timing` for the request. uuid4:
-- the next identifier.
pub record Platform : Type 0 where
  pub decode : Value → Text
  pub is_true : Value → Bool
  pub is_encodable : Value → Bool
  pub phrase : ℕ → Option String
  pub preflight : Request → Option Response
  pub debug_page : Raised → Text
  pub is_instrumented : Request → Bool
  pub uuid4 : Text
