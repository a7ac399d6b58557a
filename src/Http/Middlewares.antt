-- ===== src/Http/Middlewares.antt =====
-- app/middlewares/request_id.py, timeout.py and request_timing.py, and the middlewares of Starlette around
-- them, which answer what the handlers left.
use data_api.Prelude.{
  ◌*◌, ℕ, Bool, true, false, Option, none, some, List, [], ◌∷◌, ◌++◌, any, if◌then◌else◌, ltb,
}
use data_api.Text.{Text, eq_text}
use data_api.Errors.{lit}
use data_api.Http.Handlers.{error_response, internal_server_error, answered, handle, handler_logs}
use data_api.Http.Messages.{
  other, sqlalchemy_error, http_exception, validation_error, warning, request_validation_error,
  timeout_error, timeout_seconds, info, error, debug_page, content, app_error, Request, Response,
  Raised, Outcome, returned, raised, LogLine, Run, Application, Platform,
}

-- What a route does, with the milliseconds that it takes. Routes do not touch `request.state`.
pub data Reply : Type 0 where
  response : ℕ → Text → Reply
  exception : Raised → Reply

abbrev pub Endpoint : Type 0
Endpoint = Request → Reply × ℕ

module _ (env : Platform) where
  abbrev pub outcome_of : Reply → Outcome
  outcome_of (response status text) =
      returned (record { status_code = status; x_request_id = none; body = content text })
  outcome_of (exception e) = raised e

  -- ExceptionMiddleware around the routes
  unfoldable pub exception_middleware : Endpoint → Application
  unfolding handle
  exception_middleware endpoint request context state =
      let (reply, ms) = endpoint request in
      record {
        outcome = handle env state (outcome_of reply);
        state = state;
        logs = handler_logs env context (outcome_of reply);
        elapsed = ms;
      }

  abbrev pub status_of : Outcome → ℕ
  status_of (returned r) = r.status_code
  status_of (raised e) = 500

  -- log_request_timing, which the Instrumentator calls after the request, failed or not
  abbrev pub log_request_timing : Option Text → Outcome → LogLine
  log_request_timing context o = record {
    level = if ltb (status_of o) 500 then info else error;
    event = "api_request_completed";
    request_id = context;
  }

  -- instrument_app
  unfoldable pub instrumented : Application → Application
  instrumented app request context state =
      let run = app request context state in
      record run {
        logs =
            if env.is_instrumented request
            then run.logs ++ log_request_timing context run.outcome ∷ []
            else run.logs;
      }

  -- request.headers.get(self.header_name, str(uuid4()))
  unfoldable pub request_id_of : Request → Text
  request_id_of request = given request.x_request_id
    where
      given : Option Text → Text
      given none = env.uuid4
      given (some id) = id

  abbrev pub with_header : Text → Outcome → Outcome
  with_header id (returned r) = returned (record r { x_request_id = some id })
  with_header id (raised e) = raised e

  -- RequestIDMiddleware.dispatch
  unfoldable pub request_id_middleware : Application → Application
  unfolding request_id_of
  request_id_middleware app request context state =
      let id = request_id_of request in
      let run = app request (some id) (some id) in
      record run { outcome = with_header id run.outcome }

  -- the answer of the timeout, with the state that the call has left
  abbrev pub timed_out : ℕ → Option Text → ℕ → Option Text → Run
  unfolding error_response
  timed_out timeout context elapsed state = record {
    outcome = answered env (
        error_response env state 504 "request_timeout" (lit "Request timed out" ∷ [])
          (timeout_seconds timeout));
    state = state;
    logs = record { level = warning; event = "request_timeout"; request_id = context } ∷ [];
    elapsed = elapsed;
  }

  abbrev pub is_timeout : Outcome → Bool
  is_timeout (returned r) = false
  is_timeout (raised (app_error e)) = false
  is_timeout (raised (request_validation_error es)) = false
  is_timeout (raised (validation_error es)) = false
  is_timeout (raised (http_exception c)) = false
  is_timeout (raised (sqlalchemy_error m)) = false
  is_timeout (raised timeout_error) = true
  is_timeout (raised (other m)) = false

  -- RequestTimeoutMiddleware.dispatch. A call that is not done in time is cancelled, and its lines are not
  -- followed; a TimeoutError of its own counts as one of `wait_for`.
  unfoldable pub timeout_middleware : ℕ → List Text → Application → Application
  unfolding timed_out eq_text
  timeout_middleware timeout excluded_paths app request context state =
      let run = app request context state in
      if any (λ p. eq_text request.path p) excluded_paths
      then run
      else if ltb (timeout * 1000) run.elapsed
      then timed_out timeout context (timeout * 1000) run.state
      else if is_timeout run.outcome
      then (let late = timed_out timeout context run.elapsed run.state in
          record late { logs = run.logs ++ late.logs })
      else run

  abbrev pub preflight_or : Option Response → Run → Option Text → Run
  preflight_or (some r) run state = record {
    outcome = returned r;
    state = state;
    logs = [];
    elapsed = 0;
  }
  preflight_or none run state = run

  -- CORSMiddleware, less the headers it adds
  unfoldable pub cors_middleware : Application → Application
  cors_middleware app request context state =
      preflight_or (env.preflight request) (app request context state) state

  abbrev pub server_answer : Bool → Option Text → Raised → Outcome
  server_answer true state e =
      returned
        (record { status_code = 500; x_request_id = none; body = debug_page (env.debug_page e) })
  server_answer false state e = answered env (internal_server_error env state)

  abbrev pub server_logs : Bool → Option Text → List LogLine
  server_logs true context = []
  server_logs false context =
      record { level = error; event = "unexpected_error"; request_id = context } ∷ []

  abbrev pub serve_errors : Bool → Option Text → Outcome → Run → Run
  serve_errors debug context (returned r) run = run
  serve_errors debug context (raised e) run = record run {
    outcome = server_answer debug run.state e;
    logs = run.logs ++ server_logs debug context;
  }

  -- ServerErrorMiddleware, with the handler of `Exception`, which debug mode does not call
  unfoldable pub server_error_middleware : Bool → Application → Application
  unfolding error_response
  server_error_middleware debug app request context state =
      let run = app request context state in serve_errors debug context run.outcome run
