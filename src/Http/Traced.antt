-- ===== src/Http/Traced.antt =====
-- The identifiers in the lines of the log.
use package.text.Mathlib.Text.{◌==◌}
use data_api.Prelude.{
  ℕ, Bool, true, false, ◌||◌, String, Option, none, some, List, map, ◌≡◌, refl, if◌then◌else◌, ltb,
}
use data_api.Text.{Text}
use data_api.Http.Application.{respond}
use data_api.Http.Handlers.{error_response}
use data_api.Http.Messages.{
  RawError, timeout_error, app_error, validation_error, Request, LogLine, Platform,
  request_validation_error, http_exception, sqlalchemy_error, other,
}
use data_api.Http.Middlewares.{Endpoint, Reply, response, exception, request_id_of}
use data_api.Http.Responses.{has_json, encodable-validation_error_details}

module _ (env : Platform) where
  -- of a line of the application: the lines that are written outside RequestIDMiddleware have no identifier
  abbrev pub traced : Text → LogLine → Option Text
  traced id line =
      if line.event == "request_timeout" || line.event == "unexpected_error" then none else some id

  abbrev pub logged : LogLine → Option Text
  logged line = line.request_id

  module _ (req : Request) (h : env.preflight req ≡ none) where
    -- the lines of a request that its route answers so
    IsTraced : Reply → ℕ → Type 0
    IsTraced reply ms =
        let logs = (respond env false (λ _. (reply, ms)) req).logs in
        map logged logs ≡ map (traced (request_id_of env req)) logs

    logs-late : (reply : Reply) (ms : ℕ) → ltb 120000 ms ≡ true → IsTraced reply ms
    unfolding respond IsTraced request_id_of
    logs-late reply ms late = rw (h, late) refl

    module _ (ms : ℕ) (in_time : ltb 120000 ms ≡ false) where
      logs-validation_error :
          (es : List RawError) (b c : Bool)
          → env.is_instrumented req ≡ b
          → has_json env es ≡ c
          → IsTraced (exception (validation_error es)) ms
      unfolding respond IsTraced request_id_of error_response
      logs-validation_error es true true i e =
          rw (h, in_time, i, encodable-validation_error_details env es, e) refl
      logs-validation_error es true false i e =
          rw (h, in_time, i, encodable-validation_error_details env es, e) refl
      logs-validation_error es false true i e =
          rw (h, in_time, i, encodable-validation_error_details env es, e) refl
      logs-validation_error es false false i e =
          rw (h, in_time, i, encodable-validation_error_details env es, e) refl

      logs-http_exception :
          (code : ℕ) (phrase : Option String) (b : Bool)
          → env.is_instrumented req ≡ b
          → env.phrase code ≡ phrase
          → IsTraced (exception (http_exception code)) ms
      unfolding respond IsTraced request_id_of
      logs-http_exception code none true i e = rw (h, in_time, i, e) refl
      logs-http_exception code none false i e = rw (h, in_time, i, e) refl
      logs-http_exception code (some phrase) true i e = rw (h, in_time, i, e) refl
      logs-http_exception code (some phrase) false i e = rw (h, in_time, i, e) refl

      logs-in_time : (reply : Reply) (b : Bool) → env.is_instrumented req ≡ b → IsTraced reply ms
      unfolding respond IsTraced request_id_of
      logs-in_time (response status text) true i = rw (h, in_time, i) refl
      logs-in_time (response status text) false i = rw (h, in_time, i) refl
      logs-in_time (exception (app_error e)) true i = rw (h, in_time, i) refl
      logs-in_time (exception (app_error e)) false i = rw (h, in_time, i) refl
      logs-in_time (exception (request_validation_error es)) b i =
          logs-validation_error es b (has_json env es) i refl
      logs-in_time (exception (validation_error es)) b i =
          logs-validation_error es b (has_json env es) i refl
      logs-in_time (exception (http_exception code)) b i =
          logs-http_exception code (env.phrase code) b i refl
      logs-in_time (exception (sqlalchemy_error m)) true i = rw (h, in_time, i) refl
      logs-in_time (exception (sqlalchemy_error m)) false i = rw (h, in_time, i) refl
      logs-in_time (exception timeout_error) true i = rw (h, in_time, i) refl
      logs-in_time (exception timeout_error) false i = rw (h, in_time, i) refl
      logs-in_time (exception (other m)) true i = rw (h, in_time, i) refl
      logs-in_time (exception (other m)) false i = rw (h, in_time, i) refl

    logs-reply : (reply : Reply) (ms : ℕ) (late : Bool) → ltb 120000 ms ≡ late → IsTraced reply ms
    logs-reply reply ms true e = logs-late reply ms e
    logs-reply reply ms false e = logs-in_time ms e reply (env.is_instrumented req) refl

    -- Outside debug mode, and where CORSMiddleware does not answer the request itself as a preflight: each line
    -- that the handlers and the middlewares write for it, whatever its route does, has the request's
    -- identifier, but for the lines of a timeout and of an exception without a handler, which have none. What a
    -- call writes that the timeout cancels is not followed.
    pub respond-traced :
        (endpoint : Endpoint)
        → map logged (respond env false endpoint req).logs
          ≡ map (traced (request_id_of env req)) (respond env false endpoint req).logs
    unfolding respond IsTraced
    respond-traced endpoint =
        logs-reply (endpoint req).0 (endpoint req).1 (ltb 120000 (endpoint req).1) refl
