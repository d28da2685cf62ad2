-- ===== src/Ingestion/Tests.antt =====
-- The theorems on ingestion at two concrete bundles, under a stand-in for the hash.
use incident_intelligence_pl.Prelude.{
  ◌≡◌, ◌≢◌, refl, none, true, false, List, [], ◌∷◌, str_eq, if◌then◌else◌,
}
use incident_intelligence_pl.Prelude.Dicts
use incident_intelligence_pl.Prelude.Keyed.{find_row}
use incident_intelligence_pl.Failure.{ok, err, up, down, idempotency_conflict}
use incident_intelligence_pl.Database.{Database, empty_database}
use incident_intelligence_pl.Schemas.{
  SupportTicket, LogEvent, EventBundle, Priority, TicketSource, LogSeverity,
}
use incident_intelligence_pl.Schemas.Validation.{unique_event_ids}
use incident_intelligence_pl.Jobs.Repository.{incident_key}
use incident_intelligence_pl.Ingestion.{
  Hashing, InMemoryIngestionStore, bundle_payload_hash, new_record, ingest_memory,
}
use incident_intelligence_pl.Ingestion.Contract.{receipt_of, Request, correlated, promise, promises}
use incident_intelligence_pl.Ingestion.Memory.{empty_store, answers_memory, answers_memory-promises}
use incident_intelligence_pl.Ingestion.Retries.{store_after, ingest_memory-retry}
use incident_intelligence_pl.Ingestion.Postgres.{
  find_receipt, insert_evidence, has_correlation, has_ticket, has_event, ingest_postgres,
}
use incident_intelligence_pl.Ingestion.Refinement.{
  receipts, IsConsistent, IsFresh, accepted, ingest_postgres-promise,
}
use incident_intelligence_pl.Ingestion.Atomicity.{AllOrNothing, ingest_postgres-AllOrNothing}

-- A hash that tells bundles apart by the subject of the ticket.
abbrev hashing : Hashing
hashing = record { canonical_bundle_json = λ b. b.ticket.subject; sha256 = λ s. s }

abbrev log : LogEvent
log = record {
  event_id = "evt-1";
  observed_at = 5;
  service = "identity";
  severity = LogSeverity.error;
  message = "account lockout";
  synthetic_user_id = "user-1";
  attributes = [];
}

abbrev ticket : SupportTicket
ticket = record {
  ticket_id = "TCK-1";
  subject = "Locked out";
  description = "Cannot sign in since this morning.";
  priority = Priority.high;
  source = TicketSource.helpdesk;
  requester_role = "analyst";
  created_at = 4;
  tags = [];
}

abbrev bundle : EventBundle
bundle = record { correlation_id = "corr-1"; ticket = ticket; logs = log ∷ [] }

abbrev other : EventBundle
other = record bundle { ticket = record ticket { subject = "Locked out again" } }

abbrev requests : List Request
requests =
    record { key = "k-1"; bundle = bundle }
    ∷ record { key = "k-1"; bundle = bundle }
    ∷ record { key = "k-1"; bundle = other }
    ∷ record { key = "k-2"; bundle = other }
    ∷ []

answers_memory-promises_example :
    answers_memory hashing requests empty_store ≡ (promises hashing requests []).0
answers_memory-promises_example = answers_memory-promises hashing requests

abbrev stored : InMemoryIngestionStore
stored = (ingest_memory hashing "k-1" bundle empty_store).1

first :
    ingest_memory hashing "k-1" bundle (store_after hashing [] empty_store)
    ≡ (ok (new_record "k-1" bundle, false), stored)
unfolding ingest_memory store_after Dicts.get
first = refl

ingest_memory-retry_example :
    ingest_memory hashing "k-1" other (store_after hashing requests stored) ≡ (
      if str_eq (bundle_payload_hash hashing bundle) (bundle_payload_hash hashing other)
          then ok (new_record "k-1" bundle, true)
          else err idempotency_conflict,
      store_after hashing requests stored,
    )
ingest_memory-retry_example =
    ingest_memory-retry hashing [] requests "k-1" bundle other (new_record "k-1" bundle) false
      stored first

empty-IsConsistent : IsConsistent empty_database
unfolding has_correlation correlated
empty-IsConsistent = record { correlations = λ c. refl }

empty-IsFresh : IsFresh bundle empty_database
unfolding has_ticket has_event unique_event_ids
empty-IsFresh = record { ticket = refl; events = (refl, tt); unique = refl }

-- The bundle is accepted, and an exact repeat of it answers from the receipt, though its ticket and
-- its event are stored by then.
abbrev ingested : Database
ingested = (ingest_postgres up hashing 10 1 "k-1" bundle empty_database).1

ingested-IsConsistent : IsConsistent ingested
ingested-IsConsistent =
    (ingest_postgres-promise hashing 10 1 "k-1" bundle empty_database empty-IsConsistent
      (unfold find_row in refl) (λ new unused. empty-IsFresh)).2

repeat_found : receipt_of "k-1" (receipts ingested) ≢ none
unfolding ingest_postgres receipt_of find_receipt has_correlation has_ticket has_event
    insert_evidence find_row
repeat_found e = cc e

repeat_drawn : find_row incident_key 2 ingested.incidents ≡ none
unfolding ingest_postgres find_receipt has_correlation has_ticket has_event insert_evidence find_row
repeat_drawn = refl

ingest_postgres-promise_example :
    let (answer, db') = ingest_postgres up hashing 20 2 "k-1" bundle ingested in
    let (promised, rs) = promise hashing "k-1" bundle (receipts ingested) in
    (answer ≡ promised) × (receipts db' ≡ rs) × IsConsistent db'
ingest_postgres-promise_example =
    ingest_postgres-promise hashing 20 2 "k-1" bundle ingested ingested-IsConsistent repeat_drawn
      (λ new unused. absurd (repeat_found new))

ingest_postgres-AllOrNothing_example :
    let (answer, db') = ingest_postgres down hashing 10 1 "k-1" bundle empty_database in
    AllOrNothing
      (new_record "k-1" bundle)
      empty_database
      (accepted hashing 10 1 "k-1" bundle empty_database)
      answer
      db'
ingest_postgres-AllOrNothing_example =
    ingest_postgres-AllOrNothing down hashing 10 1 "k-1" bundle empty_database
