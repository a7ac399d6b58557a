-- ===== src/Dynamic/Endpoints/Execute/Entries.antt =====
-- The entries that runs of dynamic routes leave in the audit log.
use data_api.Prelude.{false, some, none, Option, List, [], ◌∷◌, ◌≡◌, ap, map}
use data_api.Text.{Text, codes}
use data_api.Access.Users.{User}
use data_api.Audit.{AuditLog, Trail, dynamic_route_name, missing_mappings, audit_missing_mappings}
use data_api.Audit.Entries.{extended, extended_by_none, entry_lem}
use data_api.Dict.{keys}
use data_api.Dynamic.Endpoints.Execute.{
  respond, missing_of, request_parameters, audit_missing, execute_dynamic_route,
}
use data_api.Dynamic.Parameters.Values.{QueryParams}
use data_api.Dynamic.Routes.{Env}
use data_api.Dynamic.Routes.Execute.{Response, execute_route}
use data_api.Dynamic.Store.{World}
use data_api.Errors.{Exc, Result, ok, err}
use data_api.Pii.Mapper.{MissingPiiMapping}
use data_api.Text.Sort.{sorted_set}
use data_api.Value.{str, list, to_values}

-- The entry that is due: one that was refused, with the distinct names of the request's parameters in order,
-- not their values, and the mappings that are missing.
abbrev pub due : User → Text → QueryParams → List MissingPiiMapping → List AuditLog
due authorized route_name query_params [] = []
due authorized route_name query_params (m ∷ ms) =
    record {
      user_id = authorized.id;
      username = authorized.username;
      api_route = route_name;
      parameters =
          missing_mappings
            ((codes "parameter_names", list (to_values (map str (sorted_set (keys query_params)))))
              ∷ [])
            (m ∷ ms);
      allowed = false;
      error_message = some "Missing PII mapping";
    }
    ∷ []

abbrev pub due_after : User → Text → QueryParams → Result Response → List AuditLog
due_after authorized route_name query_params (err e) = []
due_after authorized route_name query_params (ok response) =
    due authorized route_name query_params (missing_of response)

module _ (env : Env) (flush_error : AuditLog → Option Exc) (authorized : User)
    (writes : (e : AuditLog) → flush_error e ≡ none) where
  open env use {Json}

  audit_missing_lem :
      (prefix path : Text) (query_params : QueryParams) (missing : List MissingPiiMapping)
      (t : Trail)
      → t.pending ≡ []
      → audit_missing env flush_error authorized prefix path query_params missing t
        ≡ extended t (due authorized (dynamic_route_name prefix path) query_params missing)
  unfolding audit_missing audit_missing_mappings request_parameters
  audit_missing_lem prefix path query_params [] t h = extended_by_none t h
  audit_missing_lem prefix path query_params (m ∷ ms) t h =
      ap (λ p. p.1)
        (entry_lem flush_error writes
          (record {
            user_id = authorized.id;
            username = authorized.username;
            api_route = dynamic_route_name prefix path;
            parameters = missing_mappings (request_parameters query_params) (m ∷ ms);
            allowed = false;
            error_message = some "Missing PII mapping";
          })
          t h)

  -- Where entries can be written and none is pending, a run of a dynamic route responds with what the service returns
  -- or raises, and commits one entry exactly if it returns rows in which mappings are missing, with those mappings
  -- and with the distinct names of the request's parameters in order, without their values.
  pub executions_are_audited :
      (prefix path : Text) (query_params : QueryParams) (w : World Json) (t : Trail)
      → t.pending ≡ []
      → execute_dynamic_route env flush_error authorized prefix path query_params (w, t) ≡ (
        (execute_route env prefix path query_params w).0,
        (
          (execute_route env prefix path query_params w).1,
          extended t (
              due_after authorized
                (dynamic_route_name prefix path)
                query_params
                (execute_route env prefix path query_params w).0),
        ),
      )
  unfolding execute_dynamic_route
  executions_are_audited prefix path query_params w t h =
      responds (execute_route env prefix path query_params w).0
        (execute_route env prefix path query_params w).1
    where
      responds :
          (r : Result Response) (w' : World Json)
          → respond env flush_error authorized prefix path query_params (r, w') t ≡ (
            r,
            (w', extended t (due_after authorized (dynamic_route_name prefix path) query_params r)),
          )
      responds (err e) w' = ap (λ x. (err e, (w', x))) (extended_by_none t h)
      responds (ok response) w' =
          ap (λ x. (ok response, (w', x)))
            (audit_missing_lem prefix path query_params (missing_of response) t h)
