-- ===== src/Http/Identified.antt =====
-- The identifiers in the responses, and what a response says of an exception.
use data_api.Prelude.{
  ltb, String, ℕ, Bool, true, false, not, ◌&&◌, Option, none, some, List, [], ◌≡◌, refl, ap, sym,
  ◌∙◌, if◌then◌else◌,
}
use data_api.Text.{Text}
use data_api.Http.Application.{respond}
use data_api.Http.Messages.{
  RawError, error_body, timeout_error, app_error, validation_error, Request, Response, Body,
  content, debug_page, returned, Platform, request_validation_error, http_exception,
  sqlalchemy_error, other,
}
use data_api.Http.Middlewares.{Endpoint, Reply, response, exception, request_id_of}
use data_api.Http.Responses.{
  validation_answer, http_answer, answer_in_time, answer, has_json, is_late, respond-answer,
}

module _ (env : Platform) where
  abbrev pub is_known : Option String → Bool
  is_known none = false
  is_known (some phrase) = true

  -- a handler of the program answers what the route does
  unfoldable pub is_answered : Reply → Bool
  unfolding has_json
  is_answered (response status text) = true
  is_answered (exception (app_error e)) = true
  is_answered (exception (request_validation_error es)) = has_json env es
  is_answered (exception (validation_error es)) = has_json env es
  is_answered (exception (http_exception code)) = is_known (env.phrase code)
  is_answered (exception (sqlalchemy_error m)) = true
  is_answered (exception timeout_error) = false
  is_answered (exception (other m)) = false

  -- what a response must have: the identifier in its body, if that is an error's, and in its header, if one of
  -- the handlers answered in time
  abbrev pub Names : Text → Body → Type 0
  Names id (content text) = Unit
  Names id (error_body b) = b.request_id ≡ some id
  Names id (debug_page text) = ⊥

  -- the exception, less the texts that are for the log alone
  unfoldable pub public_part : Reply → Reply
  public_part (exception (sqlalchemy_error m)) = exception (sqlalchemy_error [])
  public_part (exception (other m)) = exception (other [])
  public_part reply = reply

  module _ (id : Text) where
    validation_answer-Names :
        (es : List RawError) (b : Bool)
        → has_json env es ≡ b
        → Names id (validation_answer env id es).body
    unfolding validation_answer
    validation_answer-Names es true e = rw e refl
    validation_answer-Names es false e = rw e refl

    http_answer-Names :
        (code : ℕ) (phrase : Option String) → Names id (http_answer env id code phrase).body
    http_answer-Names code none = refl
    http_answer-Names code (some phrase) = refl

    answer_in_time-Names : (reply : Reply) → Names id (answer_in_time env id reply).body
    answer_in_time-Names (response status text) = tt
    answer_in_time-Names (exception (app_error e)) = refl
    answer_in_time-Names (exception (request_validation_error es)) =
        validation_answer-Names es (has_json env es) refl
    answer_in_time-Names (exception (validation_error es)) =
        validation_answer-Names es (has_json env es) refl
    answer_in_time-Names (exception (http_exception code)) =
        http_answer-Names code (env.phrase code)
    answer_in_time-Names (exception (sqlalchemy_error m)) = refl
    answer_in_time-Names (exception timeout_error) = refl
    answer_in_time-Names (exception (other m)) = refl

    answer-Names :
        (reply : Reply) (ms : ℕ) (late : Bool)
        → ltb 120000 ms ≡ late
        → Names id (answer env id reply ms).body
    unfolding answer
    answer-Names reply ms true e = rw e refl
    answer-Names reply ms false e = rw e (answer_in_time-Names reply)

    validation_answer-x_request_id :
        (es : List RawError) (b : Bool)
        → has_json env es ≡ b
        → (validation_answer env id es).x_request_id ≡ (if b then some id else none)
    unfolding validation_answer
    validation_answer-x_request_id es true e = rw e refl
    validation_answer-x_request_id es false e = rw e refl

    http_answer-x_request_id :
        (code : ℕ) (phrase : Option String)
        → (http_answer env id code phrase).x_request_id
          ≡ (if is_known phrase then some id else none)
    http_answer-x_request_id code none = refl
    http_answer-x_request_id code (some phrase) = refl

    answer_in_time-x_request_id :
        (reply : Reply)
        → (answer_in_time env id reply).x_request_id ≡ (if is_answered reply then some id else none)
    unfolding is_answered
    answer_in_time-x_request_id (response status text) = refl
    answer_in_time-x_request_id (exception (app_error e)) = refl
    answer_in_time-x_request_id (exception (request_validation_error es)) =
        validation_answer-x_request_id es (has_json env es) refl
    answer_in_time-x_request_id (exception (validation_error es)) =
        validation_answer-x_request_id es (has_json env es) refl
    answer_in_time-x_request_id (exception (http_exception code)) =
        http_answer-x_request_id code (env.phrase code)
    answer_in_time-x_request_id (exception (sqlalchemy_error m)) = refl
    answer_in_time-x_request_id (exception timeout_error) = refl
    answer_in_time-x_request_id (exception (other m)) = refl

    answer-x_request_id :
        (reply : Reply) (ms : ℕ) (late : Bool)
        → ltb 120000 ms ≡ late
        → (answer env id reply ms).x_request_id
          ≡ (if not late && is_answered reply then some id else none)
    unfolding answer is_answered
    answer-x_request_id reply ms true e = rw e refl
    answer-x_request_id reply ms false e = rw e (answer_in_time-x_request_id reply)

    answer-public_part :
        (reply : Reply) (ms : ℕ) → answer env id (public_part reply) ms ≡ answer env id reply ms
    unfolding answer public_part
    answer-public_part (response status text) ms = refl
    answer-public_part (exception (app_error e)) ms = refl
    answer-public_part (exception (request_validation_error es)) ms = refl
    answer-public_part (exception (validation_error es)) ms = refl
    answer-public_part (exception (http_exception code)) ms = refl
    answer-public_part (exception (sqlalchemy_error m)) ms = refl
    answer-public_part (exception timeout_error) ms = refl
    answer-public_part (exception (other m)) ms = refl

  module _ (req : Request) (h : env.preflight req ≡ none) where
    -- Outside debug mode, and where CORSMiddleware does not answer the request itself as a preflight: the
    -- response carries the identifier of its request, which is the header X-Request-ID of the request, or a
    -- new one without it: in the body, if that is an error's; and in the header X-Request-ID exactly if the route
    -- returned or raised what a handler answers, within 120 seconds. So a 504, and a 500 for an exception without
    -- a handler, have no such header.
    pub respond-Names :
        (endpoint : Endpoint)
        → (r : Response) × ((respond env false endpoint req).outcome ≡ returned r)
          × Names (request_id_of env req) r.body
          × (r.x_request_id ≡ (
              if not (is_late env (endpoint req).1) && is_answered (endpoint req).0
              then some (request_id_of env req)
              else none))
    respond-Names endpoint =
        let (reply, ms) = endpoint req in
        (
          answer env (request_id_of env req) reply ms,
          respond-answer env req h endpoint,
          answer-Names (request_id_of env req) reply ms (is_late env ms) refl,
          answer-x_request_id (request_id_of env req) reply ms (is_late env ms) refl,
        )

    -- Outside debug mode, and where CORSMiddleware does not answer the request itself as a preflight: the
    -- response does not depend on the text of an SQLAlchemyError or of an exception without a handler: with the
    -- texts erased, the request gets the same response.
    pub respond-public_part :
        (endpoint : Endpoint)
        → (respond env false (λ r. (public_part (endpoint r).0, (endpoint r).1)) req).outcome
          ≡ (respond env false endpoint req).outcome
    respond-public_part endpoint =
        respond-answer env req h (λ r. (public_part (endpoint r).0, (endpoint r).1))
        ∙ ap returned (answer-public_part (request_id_of env req) (endpoint req).0 (endpoint req).1)
        ∙ sym (respond-answer env req h endpoint)
