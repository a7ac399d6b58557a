-- ===== src/Tests/Routes.antt =====
-- The theorems on the service of dynamic routes, at concrete inputs.
use data_api.Prelude.{some, [], ◌∷◌, ◌≡◌, refl, map, List}
use data_api.Text.{Text, codes}
use data_api.Dynamic.Parameters.{DynamicParameterDefinition}
use data_api.Dynamic.Request.{validate_write_request}
use data_api.Dynamic.Request.Constraints.{validate_write_request-IsAcceptable, IsAcceptable}
use data_api.Dynamic.Routes.{WriteRequest, create_route, update_route, delete_route}
use data_api.Dynamic.Routes.Atomic.{IsAtomic, writes-IsAtomic}
use data_api.Dynamic.Routes.Execute.{execute_route}
use data_api.Dynamic.Routes.Execute.ReadOnly.{Reads, execute_route-Reads}
use data_api.Dynamic.Safety.{Dialect}
use data_api.Dynamic.Safety.Policy.{IsReadOnlySelect}
use data_api.Dynamic.Store.{World}
use data_api.Errors.{runtime_error, err, ok}
use data_api.Tests.Samples.{runtime, env, payload, world, parser, sql}

writes-IsAtomic_example :
    IsAtomic world (create_route env payload 9 world)
    × IsAtomic world (update_route env 1 payload 9 world)
    × IsAtomic world (delete_route env 1 world)
writes-IsAtomic_example = writes-IsAtomic env 1 payload 9 world refl

abbrev query : List (Text × Text)
query = (codes "b", codes "3") ∷ []

-- the client is given the statement once
executes :
    map
      (λ x. x.statement.sql)
      (execute_route env (codes "alice") (codes "report") query world).1.executed
    ≡ sql ∷ []
unfolding execute_route data_api.Dynamic.Store.get_by_route data_api.Text.eq_text
    data_api.Dynamic.Safety.validate data_api.Text.strip data_api.Text.rstrip_by
    data_api.Text.lstrip_by data_api.Text.is_space data_api.Text.starts_with data_api.Text.split
    data_api.Dynamic.Names.is_parameter_name
    data_api.Dynamic.Parameters.Contract.validate_parameter_contract data_api.Text.Sort.sorted_set
    data_api.Text.Sort.elem data_api.Dynamic.Pagination.extract_pagination
    data_api.Dynamic.Parameters.Values.cast_parameter_values data_api.Dict.put data_api.Dict.get
    data_api.Dynamic.Parameters.Statement.build_bound_statement
    data_api.Dynamic.Parameters.Cast.cast_value data_api.Dynamic.Names.is_integer
    data_api.Dynamic.Names.int_of_text
executes = refl

execute_route-Reads_example :
    Reads env world (execute_route env (codes "alice") (codes "report") query world).1
execute_route-Reads_example =
    execute_route-Reads env (codes "alice") (codes "report") query world tt

-- a delete that the database does not commit
abbrev lost : World DynamicParameterDefinition
lost = record world { commit_error = λ rows. some runtime_error }

lost_delete_is_rolled_back : delete_route env 1 lost ≡ (err runtime_error, lost)
unfolding delete_route data_api.Dynamic.Store.rollback data_api.Dynamic.Store.commit
    data_api.Dynamic.Store.get_by_id data_api.Dynamic.Store.delete
lost_delete_is_rolled_back = refl

sql-IsReadOnlySelect : IsReadOnlySelect parser sql Dialect.trino
unfolding data_api.Text.starts_with data_api.Dynamic.Safety.is_forbidden data_api.Text.split
sql-IsReadOnlySelect = record { tree = sql; parsed = refl; is_select = refl; read_only = refl }

abbrev written : WriteRequest
written = record payload { prefix = codes " Alice " }

accepts : validate_write_request runtime written ≡ ok payload
unfolding validate_write_request data_api.Dynamic.Parameters.Cast.validate_default
    data_api.Text.strip data_api.Text.rstrip_by data_api.Text.lstrip_by data_api.Text.is_space
    data_api.Text.eq_text data_api.Text.starts_with data_api.Text.ends_with data_api.Text.split
    data_api.Dynamic.Names.is_parameter_name
accepts = refl

validate_write_request-IsAcceptable_example : IsAcceptable runtime written payload
validate_write_request-IsAcceptable_example =
    validate_write_request-IsAcceptable runtime written payload accepts
