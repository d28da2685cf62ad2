-- ===== src/Api/Routes.antt =====
-- api.py: which operation answers a request, the exception handlers, and the middleware. The preview of
-- authentication evidence is left out; a request with an unknown path never gets this far.
use incident_intelligence_pl.Prelude.{
  ℕ, ◌&&◌, ◌||◌, String, Bool, true, Option, none, some, List, [], ◌∷◌, length, codes, leb, ◌==◌,
  if◌then◌else◌,
}
use incident_intelligence_pl.Failure.{
  Failure, permission_error, incident_not_found, Result, ok, err,
}
use incident_intelligence_pl.Database.{Decision}
use incident_intelligence_pl.Schemas.{EventBundle}
use incident_intelligence_pl.Observability
use incident_intelligence_pl.Observability.{Float, MetricsRegistry}
use incident_intelligence_pl.Webhooks.{WebhookDeliveryRequest}
use incident_intelligence_pl.Api.{
  App, ApiState, LogLine, Handler, Response, ◌>>◌, return, raise, increment, insufficient_role,
  incident_missing,
}
use incident_intelligence_pl.Api.Answers.{reason_of}
use incident_intelligence_pl.Api.Handlers.{
  healthz, readyz, metrics_snapshot, ingest_event_bundle, list_incidents, get_incident,
  create_classification_job, get_job, get_classification, retry_job, create_response_draft,
  get_response_draft, decide_response_draft, preview_runbook_draft, preview_webhook_delivery,
}

pub data Request : Type 0 where
  -- `/healthz`, `/readyz`, `/metrics`
  asks_health asks_readiness asks_metrics : Request
  -- `/events`, with its idempotency key
  posts_events : String → EventBundle → Request
  -- `/incidents` with limit, cursor, status and priority, then what asks for one resource; the last
  -- argument is the `Authorization` header
  lists_incidents : ℕ → Option String → Option String → Option String → Option String → Request
  gets_incident gets_job gets_classification gets_draft : ℕ → Option String → Request
  posts_classification retries_job posts_draft : ℕ → Option String → Request
  -- `/drafts/{draft_id}/approve` and `/reject`, with the request body
  decides : ℕ → Decision → Option (Option String) → Option String → Request
  previews_runbook : EventBundle → Request
  previews_webhook : String → WebhookDeliveryRequest → Request

unfoldable pub route : App → Request → Handler Response
route app asks_health = healthz app
route app asks_readiness = readyz app
route app asks_metrics = metrics_snapshot app
route app (posts_events key bundle) = ingest_event_bundle app key bundle
route app (lists_incidents limit cursor status priority authorization) =
    list_incidents app limit cursor status priority authorization
route app (gets_incident id authorization) = get_incident app id authorization
route app (gets_job id authorization) = get_job app id authorization
route app (gets_classification id authorization) = get_classification app id authorization
route app (gets_draft id authorization) = get_response_draft app id authorization
route app (posts_classification id authorization) = create_classification_job app id authorization
route app (retries_job id authorization) = retry_job app id authorization
route app (posts_draft id authorization) = create_response_draft app id authorization
route app (decides id decision request authorization) =
    decide_response_draft app id decision (reason_of request) authorization
route app (previews_runbook bundle) = preview_runbook_draft app bundle
route app (previews_webhook key request) = preview_webhook_delivery app key request

-- `@app.exception_handler`, for the two classes that have one.
abbrev pub exception_handler : Failure → Handler Response
exception_handler permission_error = do increment "rejected"; return insufficient_role
exception_handler incident_not_found = return incident_missing
exception_handler failure = raise failure

abbrev pub with_exception_handlers : Result Response × ApiState → Result Response × ApiState
with_exception_handlers (ok response, s) = (ok response, s)
with_exception_handlers (err failure, s) = exception_handler failure s

unfoldable pub call_next : App → Request → Handler Response
unfolding route
call_next app request s = with_exception_handlers (route app request s)

-- `character.isascii() and (character.isalnum() or character in "-_.")`
abbrev pub safe_character : ℕ → Bool
safe_character c =
    (leb 48 c && leb c 57)
    || (leb 65 c && leb c 90)
    || (leb 97 c && leb c 122)
    || c == 45
    || c == 95
    || c == 46

abbrev pub all_safe : List ℕ → Bool
all_safe [] = true
all_safe (c ∷ s) = safe_character c && all_safe s

unfoldable pub safe_request_id : String → Bool
safe_request_id value =
    leb 1 (length (codes value)) && leb (length (codes value)) 80 && all_safe (codes value)

-- A request with its two identifying headers, empty where they are missing, the identifier to draw
-- and the latency that is measured.
pub record HttpRequest : Type 0 where
  pub request : Request
  pub x_request_id : String
  pub x_correlation_id : String
  pub uuid4 : String
  pub latency_ms : Float

unfoldable pub request_id_of : HttpRequest → String
unfolding safe_request_id
request_id_of http = if safe_request_id http.x_request_id then http.x_request_id else http.uuid4

unfoldable pub correlation_id_of : HttpRequest → Option String
unfolding safe_request_id
correlation_id_of http =
    if safe_request_id http.x_correlation_id then some http.x_correlation_id else none

abbrev pub status_code_of : Result Response → ℕ
status_code_of (ok response) = response.status_code
status_code_of (err failure) = 500

-- The `finally` block: an exception of its own replaces what went before.
abbrev pub finally :
    LogLine
    → Result Response
    → Result (Unit {0}) × MetricsRegistry
    → ApiState
    → Result Response × ApiState
finally line r (err failure, registry) s = (err failure, record s { registry = registry })
finally line r (ok done, registry) s =
    (r, record s { registry = registry; request_log = line ∷ s.request_log })

abbrev pub logged : App → HttpRequest → Result Response × ApiState → Result Response × ApiState
logged app http (r, s) =
    finally
      (record {
        request_id = request_id_of http;
        correlation_id = correlation_id_of http;
        status_code = status_code_of r;
      })
      r (Observability.observe_request app.floats http.latency_ms s.registry) s

unfoldable pub log_request : App → HttpRequest → Handler Response
unfolding call_next
log_request app http s = logged app http (call_next app http.request s)
