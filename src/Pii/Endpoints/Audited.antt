-- ===== src/Pii/Endpoints/Audited.antt =====
-- Rows with mappings that are missing leave an entry in the audit log.
use data_api.Prelude.{ℕ, false, some, List, [], ◌∷◌, ◌≡◌, refl, ap, Option, none}
use data_api.Text.{Text, codes}
use data_api.Access.Users.{User}
use data_api.Audit.{AuditLog, Trail, missing_mappings, audit_missing_mappings}
use data_api.Audit.Entries.{extended, extended_by_none, entry_lem}
use data_api.Dict.{Dict}
use data_api.Errors.{Exc, Result, ok, err}
use data_api.Pii.AccountMap.{AccountMapInMemory}
use data_api.Pii.Endpoints.{DeeplinkParams, request_data, respond, get_deeplink_1, get_deeplink_2}
use data_api.Pii.Mapper.{Row}
use data_api.Pii.Request.{validate_request}
use data_api.Pii.Services.{DeeplinkQuery, DeeplinkRequest, Rows, deeplink_1, deeplink_2}
use data_api.Session.{continue}
use data_api.Value.{Value, Runtime}

-- The entry that is due: one that was refused, with the request and the mappings that are missing.
abbrev pub missing_entries : User → Text → Dict Value → Result Rows → List AuditLog
missing_entries actor route_name parameters (err e) = []
missing_entries actor route_name parameters (ok (rows, [])) = []
missing_entries actor route_name parameters (ok (rows, m ∷ ms)) =
    record {
      user_id = actor.id;
      username = actor.username;
      api_route = route_name;
      parameters = missing_mappings parameters (m ∷ ms);
      allowed = false;
      error_message = some "Missing PII mapping";
    }
    ∷ []

module _ (flush_error : AuditLog → Option Exc) (actor : User)
    (writes : (e : AuditLog) → flush_error e ≡ none) where
  -- The response is what the service returns, and the entries that are due are committed.
  pub respond_lem :
      (route_name : Text) (parameters : Dict Value) (r : Result Rows) (t : Trail)
      → t.pending ≡ []
      → respond flush_error actor route_name parameters r t
        ≡ (r, extended t (missing_entries actor route_name parameters r))
  unfolding respond audit_missing_mappings
  respond_lem route_name parameters (err e) t h = ap (λ x. (err e, x)) (extended_by_none t h)
  respond_lem route_name parameters (ok (rows, [])) t h =
      ap (λ x. (ok (rows, []), x)) (extended_by_none t h)
  respond_lem route_name parameters (ok (rows, m ∷ ms)) t h =
      ap (λ p. (ok (rows, m ∷ ms), p.1))
        (entry_lem flush_error writes
          (record {
            user_id = actor.id;
            username = actor.username;
            api_route = route_name;
            parameters = missing_mappings parameters (m ∷ ms);
            allowed = false;
            error_message = some "Missing PII mapping";
          })
          t h)

  module _ (model_dump : DeeplinkRequest → Dict Value) where
    -- What a deeplink request comes to.
    abbrev pub answered :
        Text
        → (DeeplinkRequest → Result Rows)
        → Result DeeplinkRequest
        → Trail
        → Result Rows × Trail
    answered route_name deeplink (err e) t = (err e, t)
    answered route_name deeplink (ok request) t = (
      deeplink request,
      extended t (missing_entries actor route_name (model_dump request) (deeplink request)),
    )

    answered_lem :
        (route_name : Text) (deeplink : DeeplinkRequest → Result Rows) (r : Result DeeplinkRequest)
        (t : Trail)
        → t.pending ≡ []
        → continue r
            (λ request.
              respond flush_error actor route_name (model_dump request) (deeplink request))
            t
          ≡ answered route_name deeplink r t
    answered_lem route_name deeplink (err e) t h = refl
    answered_lem route_name deeplink (ok request) t h =
        respond_lem route_name (model_dump request) (deeplink request) t h

    -- Where entries can be written and none is pending, the Power BI requests refuse what the validators refuse, and else
    -- respond with what the service returns and commit one entry exactly if mappings are missing in it,
    -- with the request and those mappings.
    pub deeplinks_are_audited :
        (rt : Runtime) (cache : AccountMapInMemory) (execute : DeeplinkQuery → Result (List Row))
        (today : ℕ) (p : DeeplinkParams) (t : Trail)
        → t.pending ≡ []
        → (get_deeplink_1 flush_error actor rt cache execute model_dump today p t
            ≡ answered
                (codes "power_bi.deeplink_1")
                (deeplink_1 rt cache execute)
                (validate_request (request_data today p))
                t)
          × (get_deeplink_2 flush_error actor rt cache execute model_dump today p t
              ≡ answered
                  (codes "power_bi.deeplink_2")
                  (deeplink_2 rt cache execute)
                  (validate_request (request_data today p))
                  t)
    unfolding get_deeplink_1 get_deeplink_2
    deeplinks_are_audited rt cache execute today p t h = (
      answered_lem (codes "power_bi.deeplink_1") (deeplink_1 rt cache execute)
          (validate_request (request_data today p)) t h,
      answered_lem (codes "power_bi.deeplink_2") (deeplink_2 rt cache execute)
          (validate_request (request_data today p)) t h,
    )
