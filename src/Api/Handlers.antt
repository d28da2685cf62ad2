-- ===== src/Api/Handlers.antt =====
-- api.py, the path operations of `create_app`, one function each.
use incident_intelligence_pl.Prelude.{not, ℕ, String, Bool, true, Option, none, if◌then◌else◌}
use incident_intelligence_pl.Failure.{Result, ok, up, down}
use incident_intelligence_pl.Database.{Decision, viewer, operator, admin, IngestionRecord}
use incident_intelligence_pl.Schemas.{EventBundle}
use incident_intelligence_pl.Ingestion.{InMemoryIngestionStore, ingest_memory}
use incident_intelligence_pl.Ingestion.Postgres.{ingest_postgres}
use incident_intelligence_pl.Observability.{snapshot}
use incident_intelligence_pl.Runbooks.{draft_runbook_response}
use incident_intelligence_pl.Services.{
  read_incidents, read_incident, read_job, read_classification, read_draft, create_job,
  retry_failed_job, decide_draft, draft_response,
}
use incident_intelligence_pl.Webhooks.{
  WebhookDeliveryRequest, WebhookDeliveryRecord, InMemoryWebhookDeliveryStore,
  record_webhook_delivery,
}
use incident_intelligence_pl.Api.{
  App, Handler, Response, ready, not_ready, health, readiness, metrics, page, incident, job, draft,
  runbook, delivery, ◌>>◌, return, try_except, reading, writing, increment, approval_unavailable,
  job_store_unavailable,
}
use incident_intelligence_pl.Api.Authentication.{as_operator}
use incident_intelligence_pl.Api.Answers.{
  storage_errors, ingest_errors, list_errors, create_job_errors, retry_errors, decide_errors,
  webhook_errors, ingested, found_job, found_classification, found_draft, decision_name,
}

module _ (app : App) where
  unfoldable pub healthz : Handler Response
  healthz = return (record {
    status_code = 200;
    body = health (record {
      service = "incident-intelligence-platform";
      status = "ok";
      version = app.version;
    });
  })

  -- The probe is `SELECT 1` where the engine is the application's own.
  abbrev pub readiness_probe : Bool
  readiness_probe = elim app.service.available [ up ↦ true | down ↦ not app.stores_in_postgres ]

  unfoldable pub readyz : Handler Response
  readyz =
      if readiness_probe
      then return (record {
        status_code = 200;
        body = readiness (record { service = "incident-intelligence-platform"; status = ready });
      })
      else return (record {
        status_code = 503;
        body =
            readiness (record { service = "incident-intelligence-platform"; status = not_ready });
      })

  unfoldable pub metrics_snapshot : Handler Response
  metrics_snapshot s =
      (ok (record { status_code = 200; body = metrics (snapshot app.floats s.registry) }), s)

  -- `resolved_ingestion_store.ingest(idempotency_key, bundle)`
  abbrev pub stored_in_memory :
      Result (IngestionRecord × Bool) × InMemoryIngestionStore → Handler (IngestionRecord × Bool)
  stored_in_memory (r, store) s = (r, record s { ingestions = store })

  abbrev pub ingest : String → EventBundle → Handler (IngestionRecord × Bool)
  ingest idempotency_key bundle =
      if app.stores_in_postgres
      then writing (
          ingest_postgres app.service.available app.hashing app.service.now app.service.uuid4
            idempotency_key bundle)
      else (λ s. stored_in_memory (ingest_memory app.hashing idempotency_key bundle s.ingestions) s)

  unfoldable pub ingest_event_bundle : String → EventBundle → Handler Response
  ingest_event_bundle idempotency_key bundle =
      try_except (ingest idempotency_key bundle) (ingest_errors bundle.correlation_id) ingested

  unfoldable pub list_incidents :
      ℕ → Option String → Option String → Option String → Option String → Handler Response
  list_incidents limit cursor status priority authorization =
      as_operator app authorization viewer (λ actor.
        try_except
          (reading (read_incidents app.service actor app.cursors limit cursor status priority))
          list_errors (λ found. return (record { status_code = 200; body = page found })))

  -- The service raises for an incident that is not there, so that `detail` is never `None`.
  unfoldable pub get_incident : ℕ → Option String → Handler Response
  get_incident incident_id authorization = as_operator app authorization viewer (λ actor.
      try_except (reading (read_incident app.service actor incident_id)) (storage_errors none)
        (λ detail. return (record { status_code = 200; body = incident detail })))

  unfoldable pub create_classification_job : ℕ → Option String → Handler Response
  create_classification_job incident_id authorization =
      as_operator app authorization operator (λ actor.
        if app.service.jobs
        then try_except (writing (create_job app.service actor incident_id)) create_job_errors
            (λ row. return (record { status_code = 202; body = job row }))
        else return job_store_unavailable)

  unfoldable pub get_job : ℕ → Option String → Handler Response
  get_job job_id authorization = as_operator app authorization viewer (λ actor.
      if app.service.jobs
      then try_except (reading (read_job app.service actor job_id)) (storage_errors none)
          (λ row. return (found_job row))
      else return job_store_unavailable)

  unfoldable pub get_classification : ℕ → Option String → Handler Response
  get_classification classification_id authorization =
      as_operator app authorization viewer (λ actor.
        try_except (reading (read_classification app.service actor classification_id))
          (storage_errors none) (λ row. return (found_classification row)))

  unfoldable pub retry_job : ℕ → Option String → Handler Response
  retry_job job_id authorization = as_operator app authorization admin (λ actor.
      try_except (writing (retry_failed_job app.service actor job_id)) retry_errors
        (λ row. do increment "retried"; return (record { status_code = 202; body = job row })))

  unfoldable pub create_response_draft : ℕ → Option String → Handler Response
  create_response_draft incident_id authorization = as_operator app authorization operator (λ actor.
      if app.service.approvals
      then try_except (writing (draft_response app.service actor incident_id)) (storage_errors none)
          (λ row. return (record { status_code = 201; body = draft row }))
      else return approval_unavailable)

  unfoldable pub get_response_draft : ℕ → Option String → Handler Response
  get_response_draft draft_id authorization = as_operator app authorization viewer (λ actor.
      if app.service.approvals
      then try_except (reading (read_draft app.service actor draft_id)) (storage_errors none)
          (λ row. return (found_draft row))
      else return approval_unavailable)

  unfoldable pub decide_response_draft :
      ℕ → Decision → Option String → Option String → Handler Response
  decide_response_draft draft_id decision reason authorization =
      as_operator app authorization operator (λ actor.
        if app.service.approvals
        then try_except (writing (decide_draft app.service actor draft_id decision reason))
            decide_errors
            (λ row. do
              increment (decision_name decision)
              return (record { status_code = 200; body = draft row }))
        else return approval_unavailable)

  unfoldable pub preview_runbook_draft : EventBundle → Handler Response
  preview_runbook_draft bundle =
      return (record { status_code = 200; body = runbook (draft_runbook_response bundle) })

  abbrev pub delivered :
      Result WebhookDeliveryRecord × InMemoryWebhookDeliveryStore → Handler WebhookDeliveryRecord
  delivered (r, store) s = (r, record s { deliveries = store })

  unfoldable pub preview_webhook_delivery : String → WebhookDeliveryRequest → Handler Response
  preview_webhook_delivery idempotency_key request =
      try_except
        (λ s.
          delivered
            (record_webhook_delivery app.request_hashing app.delivery_hex idempotency_key request
              202 s.deliveries)
            s)
        (webhook_errors request.payload.correlation_id)
        (λ row.
          return (record { status_code = if row.duplicate then 200 else 201; body = delivery row }))
