-- ===== src/Http/Responses.antt =====
-- What the application answers, by what a route does and the time it takes.
use data_api.Prelude.{
  ap, ℕ, Bool, true, false, ◌&&◌, String, Option, none, some, List, [], ◌∷◌, all, map, ◌≡◌, refl,
  if◌then◌else◌, ltb,
}
use data_api.Text.{Text}
use data_api.Errors.{Piece, lit}
use data_api.Http.Application.{respond}
use data_api.Http.Handlers.{encodable, error_response, encodable_input}
use data_api.Http.Messages.{
  validation_error, timeout_seconds, fields, errors, content, app_error, error_body, timeout_error,
  Request, Response, Details, RawError, returned, Platform, request_validation_error,
  http_exception, sqlalchemy_error, other,
}
use data_api.Http.Middlewares.{Endpoint, Reply, response, exception, request_id_of}
use data_api.Http.ValidationErrors.{validation_error_details, format_validation_error}

module _ (env : Platform) where
  -- every `input` of the errors has a JSON text
  unfoldable pub has_json : List RawError → Bool
  has_json es = all (λ e. encodable_input env e.input) es

  pub encodable-validation_error_details :
      (es : List RawError) → encodable env (validation_error_details env es) ≡ has_json es
  unfolding validation_error_details format_validation_error has_json
  encodable-validation_error_details [] = refl
  encodable-validation_error_details (e ∷ es) =
      ap (λ b. encodable_input env e.input && b) (encodable-validation_error_details es)

  -- more than 120 seconds
  abbrev pub is_late : ℕ → Bool
  is_late ms = ltb 120000 ms

  module _ (id : Text) where
    abbrev pub error_with : Option Text → ℕ → String → List Piece → Details → Response
    error_with header status_code code message details = record {
      status_code = status_code;
      x_request_id = header;
      body =
          error_body
            (record { code = code; message = message; details = details; request_id = some id });
    }

    abbrev pub server_error : Option Text → Response
    server_error header =
        error_with header 500 "internal_server_error" (lit "Internal server error" ∷ []) (fields [])

    abbrev pub timeout_error_response : Response
    timeout_error_response =
        error_with none 504 "request_timeout" (lit "Request timed out" ∷ []) (timeout_seconds 120)

    unfoldable pub validation_answer : List RawError → Response
    unfolding has_json format_validation_error
    validation_answer es =
        if has_json es
        then error_with (some id) 422 "validation_error" (lit "Invalid request payload" ∷ [])
            (errors (map (format_validation_error env) es))
        else server_error none

    abbrev pub http_answer : ℕ → Option String → Response
    http_answer code none = server_error none
    http_answer code (some phrase) =
        error_with (some id) code "http_error" (lit phrase ∷ []) (fields [])

    abbrev pub answer_in_time : Reply → Response
    answer_in_time (response status text) = record {
      status_code = status;
      x_request_id = some id;
      body = content text;
    }
    answer_in_time (exception (app_error e)) =
        error_with (some id) e.status_code e.code e.message (fields e.details)
    answer_in_time (exception (request_validation_error es)) = validation_answer es
    answer_in_time (exception (validation_error es)) = validation_answer es
    answer_in_time (exception (http_exception code)) = http_answer code (env.phrase code)
    answer_in_time (exception (sqlalchemy_error m)) = server_error (some id)
    answer_in_time (exception timeout_error) = timeout_error_response
    answer_in_time (exception (other m)) = server_error none

    -- the answer to a request of the identifier
    unfoldable pub answer : Reply → ℕ → Response
    unfolding has_json format_validation_error
    answer reply ms = if is_late ms then timeout_error_response else answer_in_time reply

  module _ (req : Request) (h : env.preflight req ≡ none) where
    respond-late :
        (reply : Reply) (ms : ℕ)
        → ltb 120000 ms ≡ true
        → (respond env false (λ _. (reply, ms)) req).outcome
          ≡ returned (answer (request_id_of env req) reply ms)
    unfolding respond answer request_id_of
    respond-late reply ms late = rw (h, late) refl

    -- the handlers of validation errors, by whether every `input` has a JSON text
    abbrev ValidationRun : Bool → Reply → ℕ → List RawError → Type 0
    ValidationRun b reply ms es =
        has_json es ≡ b
        → (respond env false (λ _. (reply, ms)) req).outcome
          ≡ returned (answer (request_id_of env req) reply ms)

    respond-request_validation_error :
        (es : List RawError) (ms : ℕ)
        → ltb 120000 ms ≡ false
        → (b : Bool) → ValidationRun b (exception (request_validation_error es)) ms es
    unfolding respond answer validation_answer request_id_of error_response validation_error_details
    respond-request_validation_error es ms in_time true e =
        rw (h, in_time, encodable-validation_error_details es, e) refl
    respond-request_validation_error es ms in_time false e =
        rw (h, in_time, encodable-validation_error_details es, e) refl

    respond-http_exception :
        (code ms : ℕ)
        → ltb 120000 ms ≡ false
        → (phrase : Option String) → env.phrase code ≡ phrase
        → (respond env false (λ _. (exception (http_exception code), ms)) req).outcome
          ≡ returned (answer (request_id_of env req) (exception (http_exception code)) ms)
    unfolding respond answer request_id_of
    respond-http_exception code ms in_time none e = rw (h, in_time, e) refl
    respond-http_exception code ms in_time (some phrase) e = rw (h, in_time, e) refl

    respond-in_time :
        (reply : Reply) (ms : ℕ)
        → ltb 120000 ms ≡ false
        → (respond env false (λ _. (reply, ms)) req).outcome
          ≡ returned (answer (request_id_of env req) reply ms)
    unfolding respond answer request_id_of
    respond-in_time (response status text) ms in_time = rw (h, in_time) refl
    respond-in_time (exception (app_error e)) ms in_time = rw (h, in_time) refl
    respond-in_time (exception (request_validation_error es)) ms in_time =
        respond-request_validation_error es ms in_time (has_json es) refl
    respond-in_time (exception (validation_error es)) ms in_time =
        respond-request_validation_error es ms in_time (has_json es) refl
    respond-in_time (exception (http_exception code)) ms in_time =
        respond-http_exception code ms in_time (env.phrase code) refl
    respond-in_time (exception (sqlalchemy_error m)) ms in_time = rw (h, in_time) refl
    respond-in_time (exception timeout_error) ms in_time = rw (h, in_time) refl
    respond-in_time (exception (other m)) ms in_time = rw (h, in_time) refl

    respond-reply :
        (reply : Reply) (ms : ℕ) (late : Bool)
        → ltb 120000 ms ≡ late
        → (respond env false (λ _. (reply, ms)) req).outcome
          ≡ returned (answer (request_id_of env req) reply ms)
    respond-reply reply ms true e = respond-late reply ms e
    respond-reply reply ms false e = respond-in_time reply ms e

    -- Outside debug mode, every request that is no CORS preflight gets a response, whatever its route does: the
    -- route's own, if it returns within 120 seconds; an AppError's status, code, message and details; 422 with the
    -- formatted errors for a validation error, or 500 if an `input` of them has no JSON text; an HTTPException's
    -- status and phrase, or 500 if it has none; 500 with a fixed message for any other exception; 504 where the
    -- time runs out or the route raises a TimeoutError.
    pub respond-answer :
        (endpoint : Endpoint)
        → (respond env false endpoint req).outcome
          ≡ returned (answer (request_id_of env req) (endpoint req).0 (endpoint req).1)
    unfolding respond
    respond-answer endpoint =
        respond-reply (endpoint req).0 (endpoint req).1 (ltb 120000 (endpoint req).1) refl
