-- ===== src/Ingestion/Memory.antt =====
-- The in-memory store keeps the contract: its three dictionaries are the receipts, seen by key and
-- by correlation identifier.
use incident_intelligence_pl.Prelude.{
  ◌≡◌, refl, ◌∙◌, sym, ap, String, Bool, true, false, Option, none, some, List, [], ◌∷◌, arith,
  is_some, Option-cases, inl, inr,
}
use incident_intelligence_pl.Prelude.Dicts
use incident_intelligence_pl.Failure.{Result}
use incident_intelligence_pl.Database.{IngestionRecord}
use incident_intelligence_pl.Schemas.{EventBundle}
use incident_intelligence_pl.Ingestion.{
  Hashing, InMemoryIngestionStore, bundle_payload_hash, new_record, ingest_memory,
}
use incident_intelligence_pl.Ingestion.Contract.{
  Receipt, receipt_of, correlated, new_receipt, promise, Request, promises,
}

abbrev pub summary_of : Option Receipt → Option IngestionRecord
summary_of none = none
summary_of (some r) = some r.summary

abbrev pub hash_of : Option Receipt → Option String
hash_of none = none
hash_of (some r) = some r.payload_hash

pub record Tracks (store : InMemoryIngestionStore) (rs : List Receipt) : Type 0 where
  pub records : (k : String) → Dicts.get k store.records_by_key ≡ summary_of (receipt_of k rs)
  pub hashes : (k : String) → Dicts.get k store.payload_hash_by_key ≡ hash_of (receipt_of k rs)
  pub correlations :
      (c : String) → is_some (Dicts.get c store.key_by_correlation_id) ≡ correlated c rs

abbrev pub empty_store : InMemoryIngestionStore
empty_store = record { records_by_key = []; payload_hash_by_key = []; key_by_correlation_id = [] }

pub empty_store-Tracks : Tracks empty_store []
unfolding Dicts.get receipt_of correlated
empty_store-Tracks = record { records = λ k. refl; hashes = λ k. refl; correlations = λ c. refl }

-- What the store holds after a bundle was accepted.
unfoldable pub remember :
    String → String → EventBundle → InMemoryIngestionStore → InMemoryIngestionStore
remember key payload_hash bundle store = record {
  records_by_key = Dicts.put key (new_record key bundle) store.records_by_key;
  payload_hash_by_key = Dicts.put key payload_hash store.payload_hash_by_key;
  key_by_correlation_id = Dicts.put bundle.correlation_id key store.key_by_correlation_id;
}

remember-Tracks :
    (h : Hashing) (key : String) (bundle : EventBundle) (store : InMemoryIngestionStore)
    (rs : List Receipt)
    → Tracks store rs
    → Tracks
        (remember key (bundle_payload_hash h bundle) bundle store)
        (new_receipt h key bundle ∷ rs)
unfolding remember new_receipt receipt_of correlated new_record
remember-Tracks h key bundle store rs t = record {
  records = λ k.
      ground (arith, Dicts.get-put key k (new_record key bundle) store.records_by_key, t.records k);
  hashes = λ k. ground (
    arith,
    Dicts.get-put key k (bundle_payload_hash h bundle) store.payload_hash_by_key,
    t.hashes k,
  );
  correlations = λ c. ground (
    arith,
    Dicts.get-put bundle.correlation_id c key store.key_by_correlation_id,
    t.correlations c,
  );
}

-- A store that tracks the receipts gives the promised answer and tracks the receipts after it.
pub ingest_memory-step :
    (h : Hashing) (key : String) (bundle : EventBundle) (store : InMemoryIngestionStore)
    (rs : List Receipt)
    → Tracks store rs
    → ((ingest_memory h key bundle store).0 ≡ (promise h key bundle rs).0)
      × Tracks (ingest_memory h key bundle store).1 (promise h key bundle rs).1
unfolding ingest_memory promise
ingest_memory-step h key bundle store rs t = elim (Option-cases (receipt_of key rs)) [
  | inr (old, found) ↦ rw (t.records key, found, t.hashes key, found) (refl, t)
  | inl new ↦ elim (Option-cases (Dicts.get bundle.correlation_id store.key_by_correlation_id)) [
    | inl free ↦
        let unused : correlated bundle.correlation_id rs ≡ false =
          sym (t.correlations bundle.correlation_id) ∙ ap is_some free in
        rw (t.records key, new, free, unused)
          (refl, unfold remember new_receipt in remember-Tracks h key bundle store rs t)
    | inr (owner, taken) ↦
        let used : correlated bundle.correlation_id rs ≡ true =
          sym (t.correlations bundle.correlation_id) ∙ ap is_some taken in
        rw (t.records key, new, taken, used) (refl, t)
  ]
]

-- The answers of the in-memory store to a sequence of requests.
unfoldable pub answers_memory :
    Hashing → List Request → InMemoryIngestionStore → List (Result (IngestionRecord × Bool))
answers_memory h [] store = []
answers_memory h (q ∷ qs) store =
    let (answer, store') = ingest_memory h q.key q.bundle store in
    let rest = answers_memory h qs store' in answer ∷ rest

answers_memory-from :
    (h : Hashing) (qs : List Request) (store : InMemoryIngestionStore) (rs : List Receipt)
    → Tracks store rs
    → answers_memory h qs store ≡ (promises h qs rs).0
unfolding answers_memory promises
answers_memory-from h [] store rs t = refl
answers_memory-from h (q ∷ qs) store rs t =
    let (same, t') = ingest_memory-step h q.key q.bundle store rs t in
    rw (
      same,
      answers_memory-from h qs (ingest_memory h q.key q.bundle store).1
          (promise h q.key q.bundle rs).1 t',
    )

-- From the empty store, the answers of the in-memory store to any sequence of requests are exactly
-- those of the contract; in particular it never raises `KeyError`.
pub answers_memory-promises :
    (h : Hashing) (requests : List Request)
    → answers_memory h requests empty_store ≡ (promises h requests []).0
answers_memory-promises h requests =
    answers_memory-from h requests empty_store [] empty_store-Tracks
