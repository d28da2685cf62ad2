-- ===== src/Ingestion.antt =====
-- ingestion.py: the receipt of a bundle and the in-memory store. `bundle_payload_hash` is
-- SHA-256 over pydantic's canonical JSON dump of the bundle; both are arguments here.
pub mod Contract
pub mod Memory
pub mod Retries
pub mod Postgres
pub mod Refinement
pub mod Atomicity
pub mod Raised
mod Tests
use incident_intelligence_pl.Prelude.{
  String, Bool, true, false, Option, none, some, List, length, str_eq, if◌then◌else◌,
}
use incident_intelligence_pl.Prelude.Dicts
use incident_intelligence_pl.Prelude.Dicts.{Dict}
use incident_intelligence_pl.Failure.{
  Result, ok, err, idempotency_conflict, correlation_conflict, other_error,
}
use incident_intelligence_pl.Database.{IngestionRecord}
use incident_intelligence_pl.Schemas.{EventBundle}

-- The hashing of a bundle: `json.dumps(bundle.model_dump(…), …)` and `sha256(…).hexdigest()`.
pub record Hashing : Type 0 where
  pub canonical_bundle_json : EventBundle → String
  pub sha256 : String → String

unfoldable pub bundle_payload_hash : Hashing → EventBundle → String
bundle_payload_hash h bundle = h.sha256 (h.canonical_bundle_json bundle)

-- The record of a bundle that is ingested for the first time.
unfoldable pub new_record : String → EventBundle → IngestionRecord
new_record idempotency_key bundle = record {
  idempotency_key = idempotency_key;
  correlation_id = bundle.correlation_id;
  ticket_id = bundle.ticket.ticket_id;
  log_count = length bundle.logs;
}

pub record InMemoryIngestionStore : Type 0 where
  pub records_by_key : Dict IngestionRecord
  pub payload_hash_by_key : Dict String
  pub key_by_correlation_id : Dict String

-- `self.payload_hash_by_key[idempotency_key] != payload_hash`; a missing key raises `KeyError`.
unfoldable pub replay_memory :
    Option String → String → IngestionRecord → Result (IngestionRecord × Bool)
replay_memory none payload_hash existing = err (other_error "KeyError")
replay_memory (some stored) payload_hash existing =
    if str_eq stored payload_hash then ok (existing, true) else err idempotency_conflict

-- The body of the `with self._lock` block for a key that has no record.
unfoldable pub accept_memory :
    Option String
    → String
    → String
    → EventBundle
    → InMemoryIngestionStore
    → Result (IngestionRecord × Bool) × InMemoryIngestionStore
accept_memory (some owner) idempotency_key payload_hash bundle store =
    (err correlation_conflict, store)
accept_memory none idempotency_key payload_hash bundle store =
    let made = new_record idempotency_key bundle in
    (
      ok (made, false),
      record {
        records_by_key = Dicts.put idempotency_key made store.records_by_key;
        payload_hash_by_key = Dicts.put idempotency_key payload_hash store.payload_hash_by_key;
        key_by_correlation_id =
            Dicts.put bundle.correlation_id idempotency_key store.key_by_correlation_id;
      },
    )

unfoldable pub ingest_locked :
    Option IngestionRecord
    → String
    → String
    → EventBundle
    → InMemoryIngestionStore
    → Result (IngestionRecord × Bool) × InMemoryIngestionStore
unfolding replay_memory accept_memory new_record
ingest_locked (some existing) idempotency_key payload_hash bundle store = (
  replay_memory (Dicts.get idempotency_key store.payload_hash_by_key) payload_hash existing,
  store,
)
ingest_locked none idempotency_key payload_hash bundle store =
    accept_memory (Dicts.get bundle.correlation_id store.key_by_correlation_id) idempotency_key
      payload_hash bundle store

-- `InMemoryIngestionStore.ingest`. The lock makes a call one step.
unfoldable pub ingest_memory :
    Hashing
    → String
    → EventBundle
    → InMemoryIngestionStore
    → Result (IngestionRecord × Bool) × InMemoryIngestionStore
unfolding ingest_locked bundle_payload_hash
ingest_memory h idempotency_key bundle store =
    ingest_locked (Dicts.get idempotency_key store.records_by_key) idempotency_key
      (bundle_payload_hash h bundle) bundle store
