-- ===== src/Tests/Http.antt =====
-- Requests of the whole application, with routes that return, fail and take too long.
use data_api.Prelude.{
  ℕ, Bool, true, false, not, ◌&&◌, Option, none, some, [], ◌∷◌, map, ◌≡◌, refl, if◌then◌else◌,
}
use data_api.Text.{Text, codes}
use data_api.Http.Application.{respond}
use data_api.Http.Identified.{is_answered, Names, public_part, respond-Names, respond-public_part}
use data_api.Http.Messages.{
  sqlalchemy_error, request_validation_error, Request, Response, Platform, Outcome, returned,
  raised, tuple,
}
use data_api.Http.Middlewares.{Endpoint, response, exception, request_id_of}
use data_api.Http.Responses.{answer, is_late, respond-answer}
use data_api.Http.Traced.{logged, traced, respond-traced}
use data_api.Value.{Value, str, float}

abbrev shown : Value → Text
shown (str s) = s
shown v = []

abbrev is_finite : Value → Bool
is_finite (float bits) = false
is_finite v = true

abbrev platform : Platform
platform = record {
  decode = shown;
  is_true = λ v. true;
  is_encodable = is_finite;
  phrase = λ code. some "Not Found";
  preflight = λ req. none;
  debug_page = λ e. [];
  is_instrumented = λ req. true;
  uuid4 = codes "uuid";
}

abbrev request : Request
request = record {
  method = codes "GET";
  path = codes "/slow";
  x_request_id = some (codes "req-timeout");
}

-- a route that is too slow
abbrev slow : Endpoint
slow req = (response 200 (codes "ok"), 120001)

-- a database error with a secret in its text
abbrev broken : Endpoint
broken req = (exception (sqlalchemy_error (codes "password")), 5)

-- a validation error whose input is NaN
abbrev not_a_number : Endpoint
not_a_number req = (
  exception (
      request_validation_error (
        record {
          loc = some (tuple (str (codes "body") ∷ str (codes "username") ∷ []));
          msg = some (str (codes "Input should be a valid string"));
          type = some (str (codes "string_type"));
          input = some (float 0x7ff8000000000000);
        }
        ∷ [])),
  5,
)

abbrev status_of : Outcome → Option ℕ
status_of (returned r) = some r.status_code
status_of (raised e) = none

slow-status : status_of (respond platform false slow request).outcome ≡ some 504
unfolding respond
slow-status = refl

not_a_number-status : status_of (respond platform false not_a_number request).outcome ≡ some 500
unfolding respond
not_a_number-status = refl

respond-answer_example :
    (respond platform false not_a_number request).outcome
    ≡ returned (
        answer platform
          (request_id_of platform request)
          (not_a_number request).0
          (not_a_number request).1)
respond-answer_example = respond-answer platform request refl not_a_number

respond-Names_example :
    (r : Response) × ((respond platform false slow request).outcome ≡ returned r)
    × Names platform (request_id_of platform request) r.body
    × (r.x_request_id ≡ (
        if not (is_late platform (slow request).1) && is_answered platform (slow request).0
        then some (request_id_of platform request)
        else none))
respond-Names_example = respond-Names platform request refl slow

respond-public_part_example :
    (respond platform false
      (λ r. (public_part platform (broken r).0, (broken r).1))
      request).outcome
    ≡ (respond platform false broken request).outcome
respond-public_part_example = respond-public_part platform request refl broken

respond-traced_example :
    map (logged platform) (respond platform false broken request).logs
    ≡ map
        (traced platform (request_id_of platform request))
        (respond platform false broken request).logs
respond-traced_example = respond-traced platform request refl broken
