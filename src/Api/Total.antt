-- ===== src/Api/Total.antt =====
-- Every request is answered: no exception gets past the handlers of the API.
use incident_intelligence_pl.Prelude.{
  false, ℕ, ◌≡◌, refl, inl, inr, String, true, ◌&&◌, leb, Option, none,
}
use incident_intelligence_pl.Failure.{Result, ok}
use incident_intelligence_pl.Database.{Decision, approved, rejected, viewer, operator, admin}
use incident_intelligence_pl.Observability.{zero_ms, observe_request}
use incident_intelligence_pl.Services.Raised.{
  read_job-Raises, read_classification-Raises, read_draft-Raises, read_incident-Raises,
  create_job-Raises, retry_failed_job-Raises, draft_response-Raises, decide_draft-Raises,
  read_incidents-Raises,
}
use incident_intelligence_pl.Api.{App, ApiState, Response, return, increment, ◌>>◌}
use incident_intelligence_pl.Api.Answers.{
  list_errors, storage_errors, create_job_errors, retry_errors, decide_errors, decision_name,
  reason_of,
}
use incident_intelligence_pl.Api.Handlers.{
  healthz, readyz, readiness_probe, metrics_snapshot, list_incidents, get_incident,
  create_classification_job, get_job, get_classification, retry_job, create_response_draft,
  get_response_draft, decide_response_draft, preview_runbook_draft,
}
use incident_intelligence_pl.Api.Routes.{
  Request, asks_health, asks_readiness, asks_metrics, posts_events, lists_incidents, gets_incident,
  gets_job, gets_classification, gets_draft, posts_classification, retries_job, posts_draft,
  decides, previews_runbook, previews_webhook, route, call_next, HttpRequest, logged, log_request,
}
use incident_intelligence_pl.Api.Credentials.{Configured}
use incident_intelligence_pl.Api.Answered.{
  Ready, AnsweredAt, Answered, return-Answered, increment-Answered, denied-Answered,
  missing-Answered, if-Answered, reading-Answered, writing-Answered, as_operator-Answered,
}
use incident_intelligence_pl.Api.Stores.{
  ingest_event_bundle-Answered, preview_webhook_delivery-Answered,
}

module _ (app : App) (known : Configured app) where
  decided-Answered :
      (decision : Decision) (response : Response)
      → Answered (increment (decision_name decision) >> return response)
  decided-Answered approved response =
      increment-Answered "approved" response (inr (inr (inr (inr (inr (inr (inl refl)))))))
  decided-Answered rejected response =
      increment-Answered "rejected" response (inr (inr (inr (inl refl))))

  list_incidents-Answered :
      (limit : ℕ) (cursor status priority authorization : Option String)
      → (leb 1 limit && leb limit 100) ≡ true
      → Answered (list_incidents app limit cursor status priority authorization)
  unfolding list_incidents
  list_incidents-Answered limit cursor status priority authorization range =
      as_operator-Answered app authorization viewer _ known (λ actor.
        reading-Answered list_errors _ (λ x. return-Answered _) _
          (λ db.
            read_incidents-Raises (λ f. Answered (list_errors f)) (return-Answered _)
              denied-Answered app.service actor db app.cursors limit cursor status priority range
              (return-Answered _)))

  get_incident-Answered :
      (id : ℕ) (authorization : Option String) → Answered (get_incident app id authorization)
  unfolding get_incident
  get_incident-Answered id authorization =
      as_operator-Answered app authorization viewer _ known (λ actor.
        reading-Answered (storage_errors none) _ (λ x. return-Answered _) _
          (λ db.
            read_incident-Raises (λ f. Answered (storage_errors none f)) (return-Answered _)
              denied-Answered app.service actor db missing-Answered id))

  get_job-Answered :
      (id : ℕ) (authorization : Option String) → Answered (get_job app id authorization)
  unfolding get_job
  get_job-Answered id authorization =
      as_operator-Answered app authorization viewer _ known (λ actor.
        if-Answered app.service.jobs _ _
          (reading-Answered (storage_errors none) _ (λ x. return-Answered _) _
            (λ db.
              read_job-Raises (λ f. Answered (storage_errors none f)) (return-Answered _)
                denied-Answered app.service actor db id))
          (return-Answered _))

  get_classification-Answered :
      (id : ℕ) (authorization : Option String) → Answered (get_classification app id authorization)
  unfolding get_classification
  get_classification-Answered id authorization =
      as_operator-Answered app authorization viewer _ known (λ actor.
        reading-Answered (storage_errors none) _ (λ x. return-Answered _) _
          (λ db.
            read_classification-Raises (λ f. Answered (storage_errors none f)) (return-Answered _)
              denied-Answered app.service actor db id))

  get_response_draft-Answered :
      (id : ℕ) (authorization : Option String) → Answered (get_response_draft app id authorization)
  unfolding get_response_draft
  get_response_draft-Answered id authorization =
      as_operator-Answered app authorization viewer _ known (λ actor.
        if-Answered app.service.approvals _ _
          (reading-Answered (storage_errors none) _ (λ x. return-Answered _) _
            (λ db.
              read_draft-Raises (λ f. Answered (storage_errors none f)) (return-Answered _)
                denied-Answered app.service actor db id))
          (return-Answered _))

  create_classification_job-Answered :
      (id : ℕ) (authorization : Option String)
      → Answered (create_classification_job app id authorization)
  unfolding create_classification_job
  create_classification_job-Answered id authorization =
      as_operator-Answered app authorization operator _ known (λ actor.
        if-Answered app.service.jobs _ _
          (writing-Answered create_job_errors _ (λ x. return-Answered _) _
            (λ db.
              create_job-Raises (λ f. Answered (create_job_errors f)) (return-Answered _)
                denied-Answered app.service actor db missing-Answered (return-Answered _) id))
          (return-Answered _))

  retry_job-Answered :
      (id : ℕ) (authorization : Option String) → Answered (retry_job app id authorization)
  unfolding retry_job
  retry_job-Answered id authorization =
      as_operator-Answered app authorization admin _ known (λ actor.
        writing-Answered retry_errors _
          (λ x. increment-Answered "retried" _ (inr (inr (inr (inr (inl refl)))))) _
          (λ db.
            retry_failed_job-Raises (λ f. Answered (retry_errors f)) (return-Answered _)
              denied-Answered app.service actor db (return-Answered _) (return-Answered _) id))

  create_response_draft-Answered :
      (id : ℕ) (authorization : Option String)
      → Answered (create_response_draft app id authorization)
  unfolding create_response_draft
  create_response_draft-Answered id authorization =
      as_operator-Answered app authorization operator _ known (λ actor.
        if-Answered app.service.approvals _ _
          (writing-Answered (storage_errors none) _ (λ x. return-Answered _) _
            (λ db.
              draft_response-Raises (λ f. Answered (storage_errors none f)) (return-Answered _)
                denied-Answered app.service actor db missing-Answered id))
          (return-Answered _))

  decide_response_draft-Answered :
      (id : ℕ) (decision : Decision) (reason authorization : Option String)
      → Answered (decide_response_draft app id decision reason authorization)
  unfolding decide_response_draft
  decide_response_draft-Answered id decision reason authorization =
      as_operator-Answered app authorization operator _ known (λ actor.
        if-Answered app.service.approvals _ _
          (writing-Answered decide_errors _ (λ x. decided-Answered decision _) _
            (λ db.
              decide_draft-Raises (λ f. Answered (decide_errors f)) (return-Answered _)
                denied-Answered app.service actor db (return-Answered _) (return-Answered _) id
                decision reason))
          (return-Answered _))

  readyz-Answered : Answered (readyz app)
  unfolding readyz
  readyz-Answered = if-Answered (readiness_probe app) _ _ (return-Answered _) (return-Answered _)

-- The validation of FastAPI: `Query(ge=1, le=100)`.
abbrev pub InRange : Request → Type 0
InRange (lists_incidents limit cursor status priority authorization) =
    (leb 1 limit && leb limit 100) ≡ true
InRange _ = Unit

route-Answered :
    (app : App) (request : Request)
    → Configured app
    → InRange request
    → Answered (route app request)
unfolding route healthz metrics_snapshot preview_runbook_draft
route-Answered app asks_health known range = return-Answered _
route-Answered app asks_readiness known range = readyz-Answered app known
route-Answered app asks_metrics known range = λ s r. (_, refl, r)
route-Answered app (posts_events key bundle) known range =
    ingest_event_bundle-Answered app key bundle
route-Answered app (lists_incidents limit cursor status priority authorization) known range =
    list_incidents-Answered app known limit cursor status priority authorization range
route-Answered app (gets_incident id authorization) known range =
    get_incident-Answered app known id authorization
route-Answered app (gets_job id authorization) known range =
    get_job-Answered app known id authorization
route-Answered app (gets_classification id authorization) known range =
    get_classification-Answered app known id authorization
route-Answered app (gets_draft id authorization) known range =
    get_response_draft-Answered app known id authorization
route-Answered app (posts_classification id authorization) known range =
    create_classification_job-Answered app known id authorization
route-Answered app (retries_job id authorization) known range =
    retry_job-Answered app known id authorization
route-Answered app (posts_draft id authorization) known range =
    create_response_draft-Answered app known id authorization
route-Answered app (decides id decision request authorization) known range =
    decide_response_draft-Answered app known id decision (reason_of request) authorization
route-Answered app (previews_runbook bundle) known range = return-Answered _
route-Answered app (previews_webhook key request) known range =
    preview_webhook_delivery-Answered app key request

-- Where the secret is long enough, the registry counts every operation, the store in memory is that
-- of some receipts, the limit of a page is within its bounds and the latency is not negative, a
-- request is answered with a response, no exception gets past the handlers whether the database
-- answers or not, and all this is so again after it.
pub log_request-Answered :
    (app : App) (http : HttpRequest) (s : ApiState)
    → Configured app
    → Ready s
    → InRange http.request
    → app.floats.less http.latency_ms zero_ms ≡ false
    → (response : Response) × ((log_request app http s).0 ≡ ok response)
      × Ready (log_request app http s).1
unfolding log_request call_next observe_request
log_request-Answered app http s known r range e =
    finished (call_next app http.request s) (route-Answered app http.request known range s r)
  where
    finished :
        (out : Result Response × ApiState)
        → AnsweredAt out
        → (response : Response) × ((logged app http out).0 ≡ ok response)
          × Ready (logged app http out).1
    finished (x, t) (response, is, q) =
        rw e
          (response, is, record { counted = q.counted; receipts = q.receipts; tracked = q.tracked })
