-- ===== src/Api/Access.antt =====
-- Which requests need a role, and that a refused one changes nothing.
use incident_intelligence_pl.Prelude.{◌≡◌, ◌∙◌, ap, ◌⊎◌, inl, inr, String, true, Option, none, some}
use incident_intelligence_pl.Failure.{ok}
use incident_intelligence_pl.Database.{OperatorRole, viewer, operator, admin}
use incident_intelligence_pl.Auth.{OperatorClaims, authorize}
use incident_intelligence_pl.Observability.{MetricsRegistry}
use incident_intelligence_pl.Api.{App, ApiState, Handler, Response, continue}
use incident_intelligence_pl.Api.Authentication.{as_operator, admitted, authenticate}
use incident_intelligence_pl.Api.Handlers.{
  list_incidents, get_incident, create_classification_job, get_job, get_classification, retry_job,
  create_response_draft, get_response_draft, decide_response_draft,
}
use incident_intelligence_pl.Api.Routes.{
  Request, asks_health, asks_readiness, asks_metrics, posts_events, lists_incidents, gets_incident,
  gets_job, gets_classification, gets_draft, posts_classification, retries_job, posts_draft,
  decides, previews_runbook, previews_webhook, route, call_next, with_exception_handlers,
}
use incident_intelligence_pl.Api.Credentials.{
  Configured, Counts, Credential, Refused, authenticate-cases,
}

-- The role that an operation asks for, if any, and the header that a request comes with.
abbrev pub required_role : Request → Option OperatorRole
required_role asks_health = none
required_role asks_readiness = none
required_role asks_metrics = none
required_role (posts_events key bundle) = none
required_role (lists_incidents limit cursor status priority authorization) = some viewer
required_role (gets_incident id authorization) = some viewer
required_role (gets_job id authorization) = some viewer
required_role (gets_classification id authorization) = some viewer
required_role (gets_draft id authorization) = some viewer
required_role (posts_classification id authorization) = some operator
required_role (retries_job id authorization) = some admin
required_role (posts_draft id authorization) = some operator
required_role (decides id decision request authorization) = some operator
required_role (previews_runbook bundle) = none
required_role (previews_webhook key request) = none

abbrev pub authorization_of : Request → Option String
authorization_of asks_health = none
authorization_of asks_readiness = none
authorization_of asks_metrics = none
authorization_of (posts_events key bundle) = none
authorization_of (lists_incidents limit cursor status priority authorization) = authorization
authorization_of (gets_incident id authorization) = authorization
authorization_of (gets_job id authorization) = authorization
authorization_of (gets_classification id authorization) = authorization
authorization_of (gets_draft id authorization) = authorization
authorization_of (posts_classification id authorization) = authorization
authorization_of (retries_job id authorization) = authorization
authorization_of (posts_draft id authorization) = authorization
authorization_of (decides id decision request authorization) = authorization
authorization_of (previews_runbook bundle) = none
authorization_of (previews_webhook key request) = none

unasked : {role : OperatorRole} → none ≡ some role → ⊥
unasked h = cc

module _ (app : App) (wanted role : OperatorRole) (s : ApiState) (response : Response)
    (registry : MetricsRegistry) where
  as_operator-refused :
      (authorization : Option String) (handler : OperatorClaims → Handler Response)
      → some wanted ≡ some role
      → authenticate app authorization role s
        ≡ (ok (inl response), record s { registry = registry })
      → with_exception_handlers (as_operator app authorization wanted handler s)
        ≡ (ok response, record s { registry = registry })
  as_operator-refused authorization handler r is =
      ap (λ out. with_exception_handlers (continue out (admitted app handler)))
        (ap (λ w. authenticate app authorization w s) (from_some r) ∙ is)
    where
      from_some : some wanted ≡ some role → wanted ≡ role
      from_some h = cc

answered :
    (app : App) (request : Request) (role : OperatorRole) (s : ApiState) (response : Response)
    (registry : MetricsRegistry)
    → required_role request ≡ some role
    → authenticate app (authorization_of request) role s
      ≡ (ok (inl response), record s { registry = registry })
    → call_next app request s ≡ (ok response, record s { registry = registry })
unfolding call_next route list_incidents get_incident get_job get_classification get_response_draft
    create_classification_job retry_job create_response_draft decide_response_draft
answered app asks_health role s a b r is = absurd (unasked r)
answered app asks_readiness role s a b r is = absurd (unasked r)
answered app asks_metrics role s a b r is = absurd (unasked r)
answered app (posts_events key bundle) role s a b r is = absurd (unasked r)
answered app (previews_runbook bundle) role s a b r is = absurd (unasked r)
answered app (previews_webhook key request) role s a b r is = absurd (unasked r)
answered app (lists_incidents limit cursor status priority authorization) role s a b r is =
    as_operator-refused app viewer role s a b authorization _ r is
answered app (gets_incident id authorization) role s a b r is =
    as_operator-refused app viewer role s a b authorization _ r is
answered app (gets_job id authorization) role s a b r is =
    as_operator-refused app viewer role s a b authorization _ r is
answered app (gets_classification id authorization) role s a b r is =
    as_operator-refused app viewer role s a b authorization _ r is
answered app (gets_draft id authorization) role s a b r is =
    as_operator-refused app viewer role s a b authorization _ r is
answered app (posts_classification id authorization) role s a b r is =
    as_operator-refused app operator role s a b authorization _ r is
answered app (retries_job id authorization) role s a b r is =
    as_operator-refused app admin role s a b authorization _ r is
answered app (posts_draft id authorization) role s a b r is =
    as_operator-refused app operator role s a b authorization _ r is
answered app (decides id decision request authorization) role s a b r is =
    as_operator-refused app operator role s a b authorization _ r is

-- Where no exception can be raised by the counters and the secret is long enough, a request to an
-- operation that asks for a role comes with an unexpired token of an operator of at least that role,
-- signed with the secret; or it is answered with status 401, 403 or 503 and changes nothing but the counters.
pub call_next-Refused :
    (app : App) (request : Request) (role : OperatorRole) (s : ApiState)
    → Configured app
    → Counts "rejected" s.registry
    → required_role request ≡ some role
    → ((claims : OperatorClaims) × (authorize claims role ≡ true)
        × Credential app (authorization_of request) claims)
      ⊎ Refused (λ response. response) (call_next app request s) s
call_next-Refused app request role s known counts e =
    elim (authenticate-cases app (authorization_of request) role s known counts) [
      | inr (claims, is, high, credential) ↦ inl (claims, high, credential)
      | inl refused ↦ inr record {
        response = refused.response;
        registry = refused.registry;
        is = answered app request role s refused.response refused.registry e refused.is;
        status = refused.status;
        totals = refused.totals;
      }
    ]
