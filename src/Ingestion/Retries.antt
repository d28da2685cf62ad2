-- ===== src/Ingestion/Retries.antt =====
-- Retried requests against the in-memory store, however much is ingested in between.
use incident_intelligence_pl.Prelude.{
  ◌≡◌, sym, ◌∙◌, String, Bool, true, some, List, [], ◌∷◌, str_eq, if◌then◌else◌, ap, subst,
}
use incident_intelligence_pl.Failure.{ok, err, idempotency_conflict}
use incident_intelligence_pl.Database.{IngestionRecord}
use incident_intelligence_pl.Schemas.{EventBundle}
use incident_intelligence_pl.Ingestion.{
  Hashing, InMemoryIngestionStore, bundle_payload_hash, ingest_memory,
}
use incident_intelligence_pl.Ingestion.Contract.{
  Receipt, receipt_of, promise, Request, promises, promises-keeps, promise-ok,
}
use incident_intelligence_pl.Ingestion.Memory.{
  Tracks, empty_store, empty_store-Tracks, ingest_memory-step,
}

-- The store after a sequence of requests.
unfoldable pub store_after :
    Hashing → List Request → InMemoryIngestionStore → InMemoryIngestionStore
store_after h [] store = store
store_after h (q ∷ qs) store = store_after h qs (ingest_memory h q.key q.bundle store).1

store_after-Tracks :
    (h : Hashing) (qs : List Request) (store : InMemoryIngestionStore) (rs : List Receipt)
    → Tracks store rs
    → Tracks (store_after h qs store) (promises h qs rs).1
unfolding store_after promises
store_after-Tracks h [] store rs t = t
store_after-Tracks h (q ∷ qs) store rs t =
    store_after-Tracks h qs (ingest_memory h q.key q.bundle store).1 (promise h q.key q.bundle rs).1
      (ingest_memory-step h q.key q.bundle store rs t).1

-- A key with a receipt answers from the receipt.
replayed :
    (h : Hashing) (key : String) (bundle : EventBundle) (store : InMemoryIngestionStore)
    (rs : List Receipt) (r : Receipt)
    → Tracks store rs
    → receipt_of key rs ≡ some r
    → ingest_memory h key bundle store ≡ (
      if str_eq r.payload_hash (bundle_payload_hash h bundle)
          then ok (r.summary, true)
          else err idempotency_conflict,
      store,
    )
unfolding ingest_memory
replayed h key bundle store rs r t found = rw (t.records key, found, t.hashes key, found)

-- Once a request was answered with a record, and whatever is requested after it, the same key with
-- a bundle of the same hash is answered with the same record as a duplicate, the same key with a
-- bundle of another hash is a conflict, and neither changes the store.
pub ingest_memory-retry :
    (h : Hashing) (earlier later : List Request) (key : String) (bundle again : EventBundle)
    (made : IngestionRecord) (duplicate : Bool) (store : InMemoryIngestionStore)
    → ingest_memory h key bundle (store_after h earlier empty_store) ≡ (ok (made, duplicate), store)
    → let final = store_after h later store in
      ingest_memory h key again final ≡ (
        if str_eq (bundle_payload_hash h bundle) (bundle_payload_hash h again)
            then ok (made, true)
            else err idempotency_conflict,
        final,
      )
ingest_memory-retry h earlier later key bundle again made duplicate store answered =
    let before = (promises h earlier []).1 in
    let tracked = store_after-Tracks h earlier empty_store [] empty_store-Tracks in
    let step = ingest_memory-step h key bundle (store_after h earlier empty_store) before tracked in
    let rs = (promise h key bundle before).1 in
    let first : promise h key bundle before ≡ (ok (made, duplicate), rs) =
      λ i. ((sym (step.0) ∙ ap (λ x. x.0) answered) i, rs) in
    let (r, found, hashed, summed) = promise-ok h key bundle before rs first in
    let now_tracked : Tracks store rs = subst (λ s. Tracks s rs) (ap (λ x. x.1) answered) step.1 in
    rw (← hashed, ← summed)
      (replayed h key again (store_after h later store) (promises h later rs).1 r
        (store_after-Tracks h later store rs now_tracked) (promises-keeps h later rs key r found))
