-- ===== src/Api/Stores.antt =====
-- The answers to ingestions and webhook deliveries: each exception of the stores has its clause.
use incident_intelligence_pl.Prelude.{
  refl, sym, subst, inl, inr, String, Bool, true, false, List, Option, none, some, if◌then◌else◌,
}
use incident_intelligence_pl.Prelude.Dicts
use incident_intelligence_pl.Prelude.Ordered.{In}
use incident_intelligence_pl.Failure.{Failure, idempotency_conflict, Result, ok, err}
use incident_intelligence_pl.Failure.Raised.{Raises}
use incident_intelligence_pl.Database.{Database, IngestionRecord}
use incident_intelligence_pl.Schemas.{EventBundle}
use incident_intelligence_pl.Ingestion.{InMemoryIngestionStore, ingest_memory}
use incident_intelligence_pl.Ingestion.Contract.{Receipt}
use incident_intelligence_pl.Ingestion.Memory.{Tracks, ingest_memory-step}
use incident_intelligence_pl.Ingestion.Postgres.{ingest_postgres}
use incident_intelligence_pl.Observability.{operation_names}
use incident_intelligence_pl.Webhooks.{
  WebhookDeliveryRequest, WebhookDeliveryRecord, InMemoryWebhookDeliveryStore,
  record_webhook_delivery, deliver_locked, get_delivery, same_hash,
}
use incident_intelligence_pl.Api.{App, ApiState, Handler, Response, writing, caught}
use incident_intelligence_pl.Api.Answers.{ingest_errors, webhook_errors, conflict_problem, ingested}
use incident_intelligence_pl.Api.Handlers.{
  stored_in_memory, ingest_event_bundle, preview_webhook_delivery, delivered,
}
use incident_intelligence_pl.Api.Routes.{with_exception_handlers}
use incident_intelligence_pl.Api.Answered.{
  Ready, AnsweredAt, Answered, return-Answered, increment-Answered, caught-Answered,
  writing-Answered,
}
use incident_intelligence_pl.Ingestion.Raised.{ingest_postgres-Raises, promise-Raises}

conflict_counted : In "conflict" operation_names
conflict_counted = inr (inr (inl refl))

ingested-Answered : (x : IngestionRecord × Bool) → Answered (ingested x)
ingested-Answered (made, true) = increment-Answered "duplicate" _ (inr (inl refl))
ingested-Answered (made, false) = increment-Answered "accepted" _ (inl refl)

abbrev Clause : EventBundle → Failure → Type 0
Clause bundle f = Answered (ingest_errors bundle.correlation_id f)

conflict-Answered :
    (code detail correlation : String) → Answered (conflict_problem code detail correlation)
conflict-Answered code detail correlation = increment-Answered "conflict" _ conflict_counted

from_postgres :
    (app : App) (key : String) (bundle : EventBundle) (db : Database)
    → Raises
        (Clause bundle)
        (ingest_postgres app.service.available app.hashing app.service.now app.service.uuid4 key
          bundle db).0
from_postgres app key bundle db =
    ingest_postgres-Raises (Clause bundle) (conflict-Answered _ _ _) (conflict-Answered _ _ _)
      (conflict-Answered _ _ _) (return-Answered _) app.service.available app.hashing
      app.service.now app.service.uuid4 key bundle db

module _ (app : App) (key : String) (bundle : EventBundle) where
  in_memory-Answered :
      (s : ApiState)
      → Ready s
      → AnsweredAt (
          with_exception_handlers (
            caught
              (stored_in_memory app (ingest_memory app.hashing key bundle s.ingestions) s)
              (ingest_errors bundle.correlation_id)
              ingested))
  in_memory-Answered s r =
      let (same, tracked) =
        ingest_memory-step app.hashing key bundle s.ingestions r.receipts r.tracked in
      stored (ingest_memory app.hashing key bundle s.ingestions)
        (subst (Raises (Clause bundle)) (sym same) (
          promise-Raises (Clause bundle) (conflict-Answered _ _ _) (conflict-Answered _ _ _)
            (conflict-Answered _ _ _) (return-Answered _) app.hashing key bundle r.receipts))
        (_, tracked)
    where
      stored :
          (out : Result (IngestionRecord × Bool) × InMemoryIngestionStore)
          → Raises (Clause bundle) out.0
          → (rs : List Receipt) × Tracks out.1 rs
          → AnsweredAt (
              with_exception_handlers (
                caught (stored_in_memory app out s) (ingest_errors bundle.correlation_id) ingested))
      stored (x, store) p (rs, t) =
          caught-Answered (ingest_errors bundle.correlation_id) ingested ingested-Answered
            (x, record s { ingestions = store })
            record { counted = r.counted; receipts = rs; tracked = t } p

  pub ingest_event_bundle-Answered : Answered (ingest_event_bundle app key bundle)
  unfolding ingest_event_bundle
  ingest_event_bundle-Answered s r = chosen app.stores_in_postgres
    where
      to_postgres : Database → Result (IngestionRecord × Bool) × Database
      to_postgres =
          ingest_postgres app.service.available app.hashing app.service.now app.service.uuid4 key
            bundle

      chosen :
          (b : Bool)
          → AnsweredAt (
              with_exception_handlers (
                caught
                  ((if b then writing to_postgres else (λ t.
                      stored_in_memory app (ingest_memory app.hashing key bundle t.ingestions) t))
                    s)
                  (ingest_errors bundle.correlation_id)
                  ingested))
      chosen false = in_memory-Answered s r
      chosen true =
          writing-Answered (ingest_errors bundle.correlation_id) ingested ingested-Answered
            to_postgres (λ db. from_postgres app key bundle db) s r

module _ (app : App) (key : String) (request : WebhookDeliveryRequest) where
  delivered-Answered :
      (s : ApiState) (out : Result WebhookDeliveryRecord × InMemoryWebhookDeliveryStore)
      → Ready s
      → Raises (λ f. Answered (webhook_errors request.payload.correlation_id f)) out.0
      → (rest : WebhookDeliveryRecord → Handler Response)
      → ((x : WebhookDeliveryRecord) → Answered (rest x))
      → AnsweredAt (
          with_exception_handlers
            (caught (delivered app out s) (webhook_errors request.payload.correlation_id) rest))
  delivered-Answered s (x, store) r p rest next =
      caught-Answered (webhook_errors request.payload.correlation_id) rest next
        (x, record s { deliveries = store })
        record { counted = r.counted; receipts = r.receipts; tracked = r.tracked } p

  deliver_locked-Raises :
      (P : Failure → Type 0)
      → P idempotency_conflict
      → (o : Option WebhookDeliveryRecord) (hash : String) (x : WebhookDeliveryRecord)
        (store : InMemoryWebhookDeliveryStore)
      → Raises P (deliver_locked o hash x store).0
  unfolding deliver_locked
  deliver_locked-Raises P p none hash x store = tt
  deliver_locked-Raises P p (some old) hash x store =
      either (same_hash (Dicts.get x.idempotency_key store.request_hash_by_key) hash)
    where
      answer : Bool → Result WebhookDeliveryRecord × InMemoryWebhookDeliveryStore
      answer b =
          if b
          then (ok (record old { duplicate = true }), store)
          else (err idempotency_conflict, store)

      either : (b : Bool) → Raises P (answer b).0
      either true = tt
      either false = p

  pub preview_webhook_delivery-Answered : Answered (preview_webhook_delivery app key request)
  unfolding preview_webhook_delivery record_webhook_delivery
  preview_webhook_delivery-Answered s r =
      delivered-Answered s _ r
        (deliver_locked-Raises _ (conflict-Answered _ _ _) (get_delivery key s.deliveries) _ _
          s.deliveries)
        _ (λ x. return-Answered _)
