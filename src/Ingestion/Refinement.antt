-- ===== src/Ingestion/Refinement.antt =====
-- The PostgreSQL store keeps the contract of ingestion, as long as identifiers do not clash.
use incident_intelligence_pl.Prelude.{
  ℕ, ◌≡◌, refl, ◌∙◌, sym, ap, String, true, false, Option, none, some, List, [], ◌∷◌, arith, All,
  map, any, str_eq, eq_iff, Bool-cases, Option-cases, inl, inr,
}
use incident_intelligence_pl.Prelude.Keyed.{find_row}
use incident_intelligence_pl.Failure.{ok, err, up, integrity_error}
use incident_intelligence_pl.Database.{Database, ReceiptRow, EvidenceRow}
use incident_intelligence_pl.Schemas.{EventBundle, LogEvent}
use incident_intelligence_pl.Schemas.Validation.{unique_event_ids}
use incident_intelligence_pl.Jobs.Repository.{incident_key}
use incident_intelligence_pl.Ingestion.{Hashing, bundle_payload_hash, new_record}
use incident_intelligence_pl.Ingestion.Contract.{Receipt, receipt_of, correlated, promise}
use incident_intelligence_pl.Ingestion.Postgres.{
  find_receipt, has_correlation, has_ticket, has_event, evidence_row, insert_evidence, incident_row,
  ticket_row, receipt_row, accept_bundle, ingest_postgres,
}

-- A stored receipt as the contract sees it.
abbrev pub receipt_view : ReceiptRow → Receipt
receipt_view r = record {
  key = r.idempotency_key;
  payload_hash = r.payload_hash;
  summary = r.response_summary;
}

abbrev pub receipts : Database → List Receipt
receipts db = map receipt_view db.event_ingestions

-- The incidents are those of the receipts, by correlation identifier.
pub record IsConsistent (db : Database) : Type 0 where
  pub correlations : (c : String) → has_correlation c db.incidents ≡ correlated c (receipts db)

-- The bundle's ticket and its events are new to the database, and no two of its events share an
-- identifier.
pub record IsFresh (bundle : EventBundle) (db : Database) : Type 0 where
  pub ticket : has_ticket bundle.ticket.ticket_id db.support_tickets ≡ false
  pub events : All (λ l. has_event l.event_id db.evidence_events ≡ false) bundle.logs
  pub unique : unique_event_ids bundle.logs ≡ true

abbrev receipt_of_row : Option ReceiptRow → Option Receipt
receipt_of_row none = none
receipt_of_row (some r) = some (receipt_view r)

find_receipt-view :
    (key : String) (rows : List ReceiptRow)
    → receipt_of key (map receipt_view rows) ≡ receipt_of_row (find_receipt key rows)
unfolding receipt_of find_receipt
find_receipt-view key [] = refl
find_receipt-view key (r ∷ rows) = ground (arith, find_receipt-view key rows)

-- The evidence table after the `INSERT` of all events.
unfoldable pub stored_events : List EvidenceRow → List EvidenceRow → List EvidenceRow
stored_events [] rows = rows
stored_events (r ∷ rs) rows = stored_events rs (r ∷ rows)

events-free_cons :
    (incident_id : ℕ) (l : LogEvent) (ls : List LogEvent) (rows : List EvidenceRow)
    → any (λ m. str_eq m.event_id l.event_id) ls ≡ false
    → All (λ m. has_event m.event_id rows ≡ false) ls
    → All (λ m. has_event m.event_id (evidence_row incident_id l ∷ rows) ≡ false) ls
unfolding has_event evidence_row
events-free_cons incident_id l [] rows ne h = tt
events-free_cons incident_id l (m ∷ ls) rows ne h = (
  ground (arith, h.0, eq_iff m.event_id l.event_id, eq_iff l.event_id m.event_id),
  events-free_cons incident_id l ls rows (ground arith) h.1,
)

insert_evidence-fresh :
    (incident_id : ℕ) (logs : List LogEvent) (rows : List EvidenceRow)
    → unique_event_ids logs ≡ true
    → All (λ l. has_event l.event_id rows ≡ false) logs
    → insert_evidence (map (evidence_row incident_id) logs) rows
      ≡ ok (stored_events (map (evidence_row incident_id) logs) rows)
unfolding insert_evidence stored_events unique_event_ids
insert_evidence-fresh incident_id [] rows u h = refl
insert_evidence-fresh incident_id (l ∷ ls) rows u h =
    let here : has_event (evidence_row incident_id l).event_id rows ≡ false =
      unfold evidence_row in h.0 in
    rw here (
      insert_evidence-fresh incident_id ls (evidence_row incident_id l ∷ rows) (ground arith)
        (events-free_cons incident_id l ls rows (ground arith) h.1))

-- The database after a bundle was accepted.
unfoldable pub accepted : Hashing → ℕ → ℕ → String → EventBundle → Database → Database
accepted h now incident_id key bundle db = record db {
  event_ingestions = receipt_row h now key bundle ∷ db.event_ingestions;
  incidents = incident_row now incident_id bundle ∷ db.incidents;
  support_tickets = ticket_row incident_id bundle ∷ db.support_tickets;
  evidence_events = stored_events (map (evidence_row incident_id) bundle.logs) db.evidence_events;
}

accept_bundle-fresh :
    (h : Hashing) (now incident_id : ℕ) (key : String) (bundle : EventBundle) (db : Database)
    → find_row incident_key incident_id db.incidents ≡ none
    → IsFresh bundle db
    → has_correlation bundle.correlation_id db.incidents ≡ false
    → accept_bundle h now incident_id key bundle db
      ≡ ok ((new_record key bundle, false), accepted h now incident_id key bundle db)
unfolding accept_bundle accepted
accept_bundle-fresh h now incident_id key bundle db unused f new = rw (
  unused,
  new,
  f.ticket,
  insert_evidence-fresh incident_id bundle.logs db.evidence_events f.unique f.events,
)

accept_bundle-correlated :
    (h : Hashing) (now incident_id : ℕ) (key : String) (bundle : EventBundle) (db : Database)
    → find_row incident_key incident_id db.incidents ≡ none
    → has_correlation bundle.correlation_id db.incidents ≡ true
    → accept_bundle h now incident_id key bundle db
      ≡ err (integrity_error "uq_incidents_correlation_id")
unfolding accept_bundle
accept_bundle-correlated h now incident_id key bundle db new used = rw (new, used)

accepted-IsConsistent :
    (h : Hashing) (now incident_id : ℕ) (key : String) (bundle : EventBundle) (db : Database)
    → IsConsistent db
    → IsConsistent (accepted h now incident_id key bundle db)
unfolding accepted receipt_row incident_row has_correlation correlated new_record
accepted-IsConsistent h now incident_id key bundle db v = record {
  correlations = λ c. ground (arith, v.correlations c);
}

-- While the database answers and its tables are consistent, the PostgreSQL store answers as the
-- contract does on the stored receipts: an exact repeat gives the first record, another payload or a
-- known correlation identifier is a conflict, anything else is accepted. The receipts after it are
-- those of the contract, and the tables stay consistent. The drawn incident identifier has to be new,
-- and, for a new key with a new correlation identifier, the bundle's ticket and events.
pub ingest_postgres-promise :
    (h : Hashing) (now incident_id : ℕ) (key : String) (bundle : EventBundle) (db : Database)
    → IsConsistent db
    → find_row incident_key incident_id db.incidents ≡ none
    → (receipt_of key (receipts db) ≡ none
        → correlated bundle.correlation_id (receipts db) ≡ false
        → IsFresh bundle db)
    → let (answer, db') = ingest_postgres up h now incident_id key bundle db in
      let (promised, rs) = promise h key bundle (receipts db) in
      (answer ≡ promised) × (receipts db' ≡ rs) × IsConsistent db'
unfolding ingest_postgres promise
ingest_postgres-promise h now incident_id key bundle db v drawn fresh =
    let seen = find_receipt-view key db.event_ingestions in
    elim (Option-cases (find_receipt key db.event_ingestions)) [
      | inr (old, found) ↦
          rw (seen, found)
            (elim (Bool-cases (str_eq old.payload_hash (bundle_payload_hash h bundle))) [
              | inl same ↦ rw same (refl, refl, v)
              | inr other ↦ rw other (refl, refl, v)
            ])
      | inl new ↦ elim (Bool-cases (has_correlation bundle.correlation_id db.incidents)) [
        | inl used ↦
            let taken : correlated bundle.correlation_id (receipts db) ≡ true =
              sym (v.correlations bundle.correlation_id) ∙ used in
            rw
              (
                seen,
                new,
                taken,
                accept_bundle-correlated h now incident_id key bundle db drawn used,
              )
              (refl, refl, v)
        | inr free ↦
            let unused : correlated bundle.correlation_id (receipts db) ≡ false =
              sym (v.correlations bundle.correlation_id) ∙ free in
            let f = fresh (seen ∙ ap receipt_of_row new) unused in
            rw (seen, new, unused, accept_bundle-fresh h now incident_id key bundle db drawn f free)
              (
                refl,
                unfold accepted receipt_row in refl,
                accepted-IsConsistent h now incident_id key bundle db v,
              )
      ]
    ]
