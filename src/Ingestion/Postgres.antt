-- ===== src/Ingestion/Postgres.antt =====
-- postgres.py, `PostgresIngestionStore.ingest`: one transaction over receipts, incidents, tickets and
-- evidence. `now` is the server's clock and `incident_id` the identifier that `uuid4()` draws.
use incident_intelligence_pl.Prelude.{
  ℕ, String, Bool, true, false, Option, none, some, List, [], ◌∷◌, map, any, str_eq, if◌then◌else◌,
  is_some,
}
use incident_intelligence_pl.Prelude.Keyed.{find_row}
use incident_intelligence_pl.Failure.{
  Failure, Result, ok, err, ◌>>=◌, idempotency_conflict, correlation_conflict, storage_unavailable,
  storage_integrity_error, integrity_error, sqlalchemy_error, Availability, engine_begin, rethrow,
}
use incident_intelligence_pl.Database.{
  Database, IngestionRecord, ReceiptRow, IncidentRow, TicketRow, EvidenceRow,
}
use incident_intelligence_pl.Schemas.{LogEvent, EventBundle}
use incident_intelligence_pl.Jobs.Repository.{incident_key}
use incident_intelligence_pl.Ingestion.{Hashing, bundle_payload_hash, new_record}

-- `select(…).where(event_ingestions.c.idempotency_key == idempotency_key)`
unfoldable pub find_receipt : String → List ReceiptRow → Option ReceiptRow
find_receipt key [] = none
find_receipt key (r ∷ rs) = if str_eq r.idempotency_key key then some r else find_receipt key rs

unfoldable pub record_from_summary : IngestionRecord → IngestionRecord
record_from_summary summary = record {
  idempotency_key = summary.idempotency_key;
  correlation_id = summary.correlation_id;
  ticket_id = summary.ticket_id;
  log_count = summary.log_count;
}

-- The branch `receipt_key is None`: the key was taken.
unfoldable pub replay_receipt : Option ReceiptRow → String → Result (IngestionRecord × Bool)
unfolding record_from_summary
replay_receipt none payload_hash = err storage_unavailable
replay_receipt (some receipt) payload_hash =
    if str_eq receipt.payload_hash payload_hash
    then ok (record_from_summary receipt.response_summary, true)
    else err idempotency_conflict

unfoldable pub receipt_row : Hashing → ℕ → String → EventBundle → ReceiptRow
unfolding bundle_payload_hash new_record
receipt_row h now key bundle = record {
  idempotency_key = key;
  payload_hash = bundle_payload_hash h bundle;
  correlation_id = bundle.correlation_id;
  response_summary = new_record key bundle;
  created_at = now;
}

unfoldable pub incident_row : ℕ → ℕ → EventBundle → IncidentRow
incident_row now incident_id bundle = record {
  id = incident_id;
  correlation_id = bundle.correlation_id;
  status = "open";
  priority = bundle.ticket.priority;
  summary = bundle.ticket.subject;
  created_at = now;
  updated_at = now;
}

unfoldable pub ticket_row : ℕ → EventBundle → TicketRow
ticket_row incident_id bundle = record {
  ticket_id = bundle.ticket.ticket_id;
  incident_id = incident_id;
  subject = bundle.ticket.subject;
  description = bundle.ticket.description;
  priority = bundle.ticket.priority;
  source = bundle.ticket.source;
  requester_role = bundle.ticket.requester_role;
  created_at = bundle.ticket.created_at;
  tags = bundle.ticket.tags;
}

unfoldable pub evidence_row : ℕ → LogEvent → EvidenceRow
evidence_row incident_id log = record {
  event_id = log.event_id;
  incident_id = incident_id;
  observed_at = log.observed_at;
  service = log.service;
  severity = log.severity;
  message = log.message;
  synthetic_user_id = log.synthetic_user_id;
  attributes = log.attributes;
}

unfoldable pub has_correlation : String → List IncidentRow → Bool
has_correlation correlation_id = any (λ r. str_eq r.correlation_id correlation_id)

unfoldable pub has_ticket : String → List TicketRow → Bool
has_ticket ticket_id = any (λ r. str_eq r.ticket_id ticket_id)

unfoldable pub has_event : String → List EvidenceRow → Bool
has_event event_id = any (λ r. str_eq r.event_id event_id)

-- The `INSERT`s under the primary keys and the unique constraint, in the order of the indexes.
unfoldable pub insert_incident : IncidentRow → List IncidentRow → Result (List IncidentRow)
unfolding has_correlation
insert_incident r rows =
    if is_some (find_row incident_key r.id rows)
    then err (integrity_error "pk_incidents")
    else if has_correlation r.correlation_id rows
    then err (integrity_error "uq_incidents_correlation_id")
    else ok (r ∷ rows)

unfoldable pub insert_ticket : TicketRow → List TicketRow → Result (List TicketRow)
unfolding has_ticket
insert_ticket r rows =
    if has_ticket r.ticket_id rows
    then err (integrity_error "pk_support_tickets")
    else ok (r ∷ rows)

unfoldable pub insert_evidence : List EvidenceRow → List EvidenceRow → Result (List EvidenceRow)
unfolding has_event
insert_evidence [] rows = ok rows
insert_evidence (r ∷ rs) rows =
    let rest = insert_evidence rs (r ∷ rows) in
    if has_event r.event_id rows then err (integrity_error "pk_evidence_events") else rest

-- The branch in which the receipt was inserted.
unfoldable pub accept_bundle :
    Hashing → ℕ → ℕ → String → EventBundle → Database → Result ((IngestionRecord × Bool) × Database)
unfolding receipt_row incident_row ticket_row insert_incident insert_ticket new_record
accept_bundle h now incident_id key bundle db = do
  incidents ← insert_incident (incident_row now incident_id bundle) db.incidents
  tickets ← insert_ticket (ticket_row incident_id bundle) db.support_tickets
  evidence ← insert_evidence (map (evidence_row incident_id) bundle.logs) db.evidence_events
  ok (
    (new_record key bundle, false),
    record db {
      event_ingestions = receipt_row h now key bundle ∷ db.event_ingestions;
      incidents = incidents;
      support_tickets = tickets;
      evidence_events = evidence;
    },
  )

-- The result of a replay beside the database that it leaves alone.
abbrev pub unchanged {ℓ} : {A : Type ℓ} → Result A → Database → Result (A × Database)
unchanged r db = r >>= λ x. ok (x, db)

unfoldable pub ingest_body :
    Hashing → ℕ → ℕ → String → EventBundle → Database → Result ((IngestionRecord × Bool) × Database)
unfolding replay_receipt accept_bundle bundle_payload_hash
ingest_body h now incident_id key bundle db =
    if is_some (find_receipt key db.event_ingestions)
    then unchanged
        (replay_receipt (find_receipt key db.event_ingestions) (bundle_payload_hash h bundle)) db
    else accept_bundle h now incident_id key bundle db

-- The two `except` clauses.
unfoldable pub ingest_failure : Failure → Failure
ingest_failure (integrity_error name) =
    if str_eq name "uq_incidents_correlation_id"
    then correlation_conflict
    else storage_integrity_error
ingest_failure sqlalchemy_error = storage_unavailable
ingest_failure e = e

abbrev pub rethrow_first {ℓ} :
    {A : Type ℓ} → (Failure → Failure) → Result A × Database → Result A × Database
rethrow_first handler (r, db) = (rethrow handler r, db)

unfoldable pub ingest_postgres :
    Availability
    → Hashing
    → ℕ
    → ℕ
    → String
    → EventBundle
    → Database
    → Result (IngestionRecord × Bool) × Database
unfolding ingest_body ingest_failure
ingest_postgres a h now incident_id key bundle db =
    rethrow_first ingest_failure (engine_begin a (ingest_body h now incident_id key bundle) db)
