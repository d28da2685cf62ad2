-- ===== src/Ingestion/Raised.antt =====
-- The exceptions that an ingestion can raise, each named by a hypothesis.
use incident_intelligence_pl.Prelude.{
  ℕ, String, Bool, true, false, List, [], ◌∷◌, Option, none, some, if◌then◌else◌, is_some, map,
  str_eq,
}
use incident_intelligence_pl.Prelude.Keyed.{find_row}
use incident_intelligence_pl.Jobs.Repository.{incident_key}
use incident_intelligence_pl.Failure.{
  Failure, idempotency_conflict, correlation_conflict, storage_integrity_error, storage_unavailable,
  integrity_error, engine_begin, Availability,
}
use incident_intelligence_pl.Failure.Raised.{Raises, bind-Raises, rethrow-Raises, begin-Raises}
use incident_intelligence_pl.Database.{Database, ReceiptRow, EvidenceRow, IncidentRow, TicketRow}
use incident_intelligence_pl.Schemas.{EventBundle}
use incident_intelligence_pl.Ingestion.{bundle_payload_hash, Hashing}
use incident_intelligence_pl.Ingestion.Contract
use incident_intelligence_pl.Ingestion.Contract.{
  Receipt, receipt_of, correlated, new_receipt, promise,
}
use incident_intelligence_pl.Ingestion.Postgres.{
  find_receipt, replay_receipt, accept_bundle, insert_incident, insert_ticket, insert_evidence,
  ingest_body, ingest_failure, ingest_postgres, incident_row, ticket_row, evidence_row,
  has_correlation, has_ticket, has_event,
}
use incident_intelligence_pl.Services.Transactions.{if-Raises}

-- What PostgreSQL's ingestion raises, outside its transaction.
module _ (P : Failure → Type 0) (clash : P storage_integrity_error)
    (reused : P correlation_conflict) (repeated : P idempotency_conflict)
    (away : P storage_unavailable) where
  abbrev Q : Failure → Type 0
  Q f = P (ingest_failure f)

  integrity : (name : String) → Q (integrity_error name)
  unfolding ingest_failure
  integrity name = either (str_eq name "uq_incidents_correlation_id")
    where
      either : (b : Bool) → P (if b then correlation_conflict else storage_integrity_error)
      either true = reused
      either false = clash

  insert_evidence-Raises : (rs rows : List EvidenceRow) → Raises Q (insert_evidence rs rows)
  unfolding insert_evidence
  insert_evidence-Raises [] rows = tt
  insert_evidence-Raises (r ∷ rs) rows =
      if-Raises Q (has_event r.event_id rows) _ _ (integrity _)
        (insert_evidence-Raises rs (r ∷ rows))

  insert_incident-Raises :
      (r : IncidentRow) (rows : List IncidentRow) → Raises Q (insert_incident r rows)
  unfolding insert_incident
  insert_incident-Raises r rows =
      if-Raises Q (is_some (find_row incident_key r.id rows)) _ _ (integrity _)
        (if-Raises Q (has_correlation r.correlation_id rows) _ _ (integrity _) tt)

  insert_ticket-Raises : (r : TicketRow) (rows : List TicketRow) → Raises Q (insert_ticket r rows)
  unfolding insert_ticket
  insert_ticket-Raises r rows = if-Raises Q (has_ticket r.ticket_id rows) _ _ (integrity _) tt

  accept_bundle-Raises :
      (h : Hashing) (now id : ℕ) (key : String) (bundle : EventBundle) (db : Database)
      → Raises Q (accept_bundle h now id key bundle db)
  unfolding accept_bundle
  accept_bundle-Raises h now id key bundle db =
      bind-Raises Q (insert_incident (incident_row now id bundle) db.incidents) _
        (insert_incident-Raises (incident_row now id bundle) db.incidents)
        (λ incidents.
          bind-Raises Q (insert_ticket (ticket_row id bundle) db.support_tickets) _
            (insert_ticket-Raises (ticket_row id bundle) db.support_tickets)
            (λ tickets.
              bind-Raises Q (insert_evidence (map (evidence_row id) bundle.logs) db.evidence_events)
                _ (insert_evidence-Raises (map (evidence_row id) bundle.logs) db.evidence_events)
                (λ evidence. tt)))

  replay_receipt-Raises :
      (o : Option ReceiptRow) (payload_hash : String) → Raises Q (replay_receipt o payload_hash)
  unfolding replay_receipt ingest_failure
  replay_receipt-Raises none payload_hash = away
  replay_receipt-Raises (some r) payload_hash =
      if-Raises Q (str_eq r.payload_hash payload_hash) _ _ tt repeated

  ingest_body-Raises :
      (h : Hashing) (now id : ℕ) (key : String) (bundle : EventBundle) (db : Database)
      → Raises Q (ingest_body h now id key bundle db)
  unfolding ingest_body
  ingest_body-Raises h now id key bundle db =
      if-Raises Q (is_some (find_receipt key db.event_ingestions)) _ _
        (bind-Raises Q
          (replay_receipt (find_receipt key db.event_ingestions) (bundle_payload_hash h bundle)) _
          (replay_receipt-Raises (find_receipt key db.event_ingestions)
            (bundle_payload_hash h bundle))
          (λ x. tt))
        (accept_bundle-Raises h now id key bundle db)

  pub ingest_postgres-Raises :
      (a : Availability) (h : Hashing) (now id : ℕ) (key : String) (bundle : EventBundle)
      (db : Database)
      → Raises P (ingest_postgres a h now id key bundle db).0
  unfolding ingest_postgres ingest_failure
  ingest_postgres-Raises a h now id key bundle db =
      rethrow-Raises P ingest_failure (engine_begin a (ingest_body h now id key bundle) db).0 (
        begin-Raises Q a (ingest_body h now id key bundle) db away
          (ingest_body-Raises h now id key bundle db))

  pub promise-Raises :
      (h : Hashing) (key : String) (bundle : EventBundle) (rs : List Receipt)
      → Raises P (promise h key bundle rs).0
  unfolding promise Contract.decide
  promise-Raises h key bundle rs =
      decided (receipt_of key rs) (correlated bundle.correlation_id rs) (new_receipt h key bundle)
    where
      decided :
          (o : Option Receipt) (used : Bool) (r : Receipt)
          → Raises P (Contract.decide o used r rs).0
      decided (some old) used r =
          if-Raises P (str_eq old.payload_hash r.payload_hash) _ _ tt repeated
      decided none true r = reused
      decided none false r = tt
