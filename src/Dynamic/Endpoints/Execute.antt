-- ===== src/Dynamic/Endpoints/Execute.antt =====
-- app/api/v1/endpoints/dynamic_execute.py: running a dynamic route, and the entry in the audit log that
-- a background task writes behind the response.
pub mod Entries
use data_api.Prelude.{Option, List, [], ◌∷◌, map}
use data_api.Text.{Text, codes}
use data_api.Access.Users.{User}
use data_api.Audit.{AuditLog, Trail, dynamic_route_name, audit_missing_mappings}
use data_api.Dict.{Dict, keys}
use data_api.Dynamic.Endpoints.{Site}
use data_api.Dynamic.Parameters.Values.{QueryParams}
use data_api.Dynamic.Routes.{Env}
use data_api.Dynamic.Routes.Execute.{Response, data_rows, paginated_rows, execute_route}
use data_api.Dynamic.Store.{World}
use data_api.Errors.{Exc, Result, ok, err}
use data_api.Pii.Mapper.{MissingPiiMapping}
use data_api.Session.{M}
use data_api.Text.Sort.{sorted_set}
use data_api.Value.{Value, str, list, to_values}

abbrev pub missing_of : Response → List MissingPiiMapping
missing_of (data_rows rows missing) = missing
missing_of (paginated_rows rows pagination missing) = missing

-- the names of the parameters of the request
unfoldable pub request_parameters : QueryParams → Dict Value
unfolding sorted_set
request_parameters query_params =
    (codes "parameter_names", list (to_values (map str (sorted_set (keys query_params))))) ∷ []

module _ (env : Env) (flush_error : AuditLog → Option Exc) (authorized : User) where
  open env use {Json}

  -- the background task, if there is one; its errors reach nobody
  unfoldable pub audit_missing : Text → Text → QueryParams → List MissingPiiMapping → Trail → Trail
  unfolding audit_missing_mappings request_parameters
  audit_missing prefix path query_params [] t = t
  audit_missing prefix path query_params (m ∷ ms) t =
      (audit_missing_mappings flush_error authorized (dynamic_route_name prefix path)
        (request_parameters query_params) (m ∷ ms) t).1

  abbrev pub respond :
      Text → Text → QueryParams → Result Response × World Json → Trail → Result Response × Site env
  unfolding audit_missing
  respond prefix path query_params (err e, w) t = (err e, (w, t))
  respond prefix path query_params (ok response, w) t =
      (ok response, (w, audit_missing prefix path query_params (missing_of response) t))

  unfoldable pub execute_dynamic_route : Text → Text → QueryParams → M (Site env) Response
  unfolding execute_route respond
  execute_dynamic_route prefix path query_params (w, t) =
      respond prefix path query_params (execute_route env prefix path query_params w) t
