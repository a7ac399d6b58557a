-- ===== src/Http/Application.antt =====
-- The application of app/main.py: `create_app` adds its middlewares from the inside out.
use data_api.Prelude.{ℕ, Bool, none, []}
use data_api.Http.Messages.{Request, Run, Application, Platform}
use data_api.Http.Middlewares.{
  Endpoint, exception_middleware, instrumented, request_id_middleware, timeout_middleware,
  cors_middleware, server_error_middleware,
}

abbrev pub api_request_timeout_seconds : ℕ
api_request_timeout_seconds = 120

module _ (env : Platform) (debug : Bool) where
  unfoldable pub create_app : Endpoint → Application
  unfolding exception_middleware instrumented request_id_middleware timeout_middleware
      cors_middleware server_error_middleware
  create_app endpoint = server_error_middleware env debug (
      cors_middleware env (
        timeout_middleware env api_request_timeout_seconds []
          (request_id_middleware env (instrumented env (exception_middleware env endpoint)))))

  -- a request from the server, whose context and state are empty
  unfoldable pub respond : Endpoint → Request → Run
  unfolding create_app
  respond endpoint request = create_app endpoint request none none
