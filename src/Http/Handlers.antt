-- ===== src/Http/Handlers.antt =====
-- `error_response` and the handlers of `register_exception_handlers`, app/core/exceptions.py.
use data_api.Prelude.{ℕ, Bool, true, Option, none, some, List, [], ◌∷◌, all, String, if◌then◌else◌}
use data_api.Text.{Text, codes}
use data_api.Errors.{Piece, lit}
use data_api.Http.Messages.{
  http_exception, validation_error, request_validation_error, error, sqlalchemy_error, other,
  RawError, app_error, timeout_error, Details, fields, errors, timeout_seconds, Response, ErrorBody,
  error_body, Raised, Outcome, returned, raised, FormattedError, LogLine, Level, Platform,
}
use data_api.Http.ValidationErrors.{validation_error_details}
use data_api.Value.{Value}

module _ (env : Platform) where
  abbrev pub encodable_input : Option Value → Bool
  encodable_input none = true
  encodable_input (some value) = env.is_encodable value

  abbrev pub encodable : Details → Bool
  encodable (errors es) = all (λ e. encodable_input e.input) es
  encodable (fields fs) = true
  encodable (timeout_seconds s) = true

  -- A JSONResponse: `none` is the ValueError of a value that has no JSON text.
  unfoldable pub error_response : Option Text → ℕ → String → List Piece → Details → Option Response
  error_response request_id status_code code message details =
      if encodable details
      then some (record {
        status_code = status_code;
        x_request_id = none;
        body =
            error_body (record {
              code = code;
              message = message;
              details = details;
              request_id = request_id;
            });
      })
      else none

  abbrev pub validation_response : Option Text → List RawError → Option Response
  unfolding error_response validation_error_details
  validation_response request_id es =
      error_response request_id 422 "validation_error" (lit "Invalid request payload" ∷ [])
        (validation_error_details env es)

  abbrev pub internal_server_error : Option Text → Option Response
  unfolding error_response
  internal_server_error request_id =
      error_response request_id 500 "internal_server_error" (lit "Internal server error" ∷ [])
        (fields [])

  abbrev pub http_response : Option Text → ℕ → Option String → Option Response
  unfolding error_response
  http_response request_id code none = none
  http_response request_id code (some phrase) =
      error_response request_id code "http_error" (lit phrase ∷ []) (fields [])

  -- a handler that fails raises its ValueError
  abbrev pub answered : Option Response → Outcome
  answered none = raised (other (codes "ValueError"))
  answered (some response) = returned response

  -- ExceptionMiddleware, with the handlers of the program; what has none of them goes on outwards
  unfoldable pub handle : Option Text → Outcome → Outcome
  unfolding error_response validation_error_details
  handle request_id (returned response) = returned response
  handle request_id (raised (app_error e)) =
      answered (error_response request_id e.status_code e.code e.message (fields e.details))
  handle request_id (raised (request_validation_error es)) =
      answered (validation_response request_id es)
  handle request_id (raised (validation_error es)) = answered (validation_response request_id es)
  handle request_id (raised (http_exception code)) =
      answered (http_response request_id code (env.phrase code))
  handle request_id (raised (sqlalchemy_error m)) = answered (internal_server_error request_id)
  handle request_id (raised timeout_error) = raised data_api.Http.Messages.timeout_error
  handle request_id (raised (other m)) = raised (other m)

  -- `logger.exception` of the handlers
  abbrev pub handler_logs : Option Text → Outcome → List LogLine
  handler_logs context (raised (sqlalchemy_error m)) =
      record { level = error; event = "database_error"; request_id = context } ∷ []
  handler_logs context o = []
