-- ===== src/Ingestion/Contract.antt =====
-- What ingestion promises, whatever the store: a list of receipts, a key names at most one of them,
-- and so does a correlation identifier.
use incident_intelligence_pl.Prelude.{
  ◌≡◌, refl, ap, String, Bool, true, false, ◌||◌, Option, none, some, List, [], ◌∷◌, arith, str_eq,
  eq_iff, eq_refl, if◌then◌else◌, Option-cases, inl, inr,
}
use incident_intelligence_pl.Failure.{Result, ok, err, idempotency_conflict, correlation_conflict}
use incident_intelligence_pl.Database.{IngestionRecord}
use incident_intelligence_pl.Schemas.{EventBundle}
use incident_intelligence_pl.Ingestion.{Hashing, bundle_payload_hash, new_record}

pub record Receipt : Type 0 where
  pub key : String
  pub payload_hash : String
  pub summary : IngestionRecord

unfoldable pub receipt_of : String → List Receipt → Option Receipt
receipt_of key [] = none
receipt_of key (r ∷ rs) = if str_eq r.key key then some r else receipt_of key rs

unfoldable pub correlated : String → List Receipt → Bool
correlated correlation_id [] = false
correlated correlation_id (r ∷ rs) =
    str_eq r.summary.correlation_id correlation_id || correlated correlation_id rs

unfoldable pub new_receipt : Hashing → String → EventBundle → Receipt
unfolding bundle_payload_hash
new_receipt h key bundle = record {
  key = key;
  payload_hash = bundle_payload_hash h bundle;
  summary = new_record key bundle;
}

unfoldable pub decide :
    Option Receipt → Bool → Receipt → List Receipt → Result (IngestionRecord × Bool) × List Receipt
decide (some old) used r rs = (
  if str_eq old.payload_hash r.payload_hash
      then ok (old.summary, true)
      else err idempotency_conflict,
  rs,
)
decide none true r rs = (err correlation_conflict, rs)
decide none false r rs = (ok (r.summary, false), r ∷ rs)

-- One ingestion: an exact repeat returns the first receipt, a repeat with another payload and a
-- new key for a known correlation identifier are conflicts, anything else is accepted.
unfoldable pub promise :
    Hashing → String → EventBundle → List Receipt → Result (IngestionRecord × Bool) × List Receipt
unfolding decide new_receipt new_record
promise h key bundle rs =
    let r = new_receipt h key bundle in
    decide (receipt_of key rs) (correlated bundle.correlation_id rs) r rs

pub record Request : Type 0 where
  pub key : String
  pub bundle : EventBundle

-- The answers to a sequence of requests, and the receipts after it.
unfoldable pub promises :
    Hashing → List Request → List Receipt → List (Result (IngestionRecord × Bool)) × List Receipt
promises h [] rs = ([], rs)
promises h (q ∷ qs) rs =
    let (answer, rs') = promise h q.key q.bundle rs in
    let (answers, final) = promises h qs rs' in (answer ∷ answers, final)

-- A receipt stays under its key, whatever is requested later.
promise-keeps :
    (h : Hashing) (key : String) (bundle : EventBundle) (rs : List Receipt) (k : String)
    (r : Receipt)
    → receipt_of k rs ≡ some r
    → receipt_of k (promise h key bundle rs).1 ≡ some r
unfolding promise receipt_of
promise-keeps h key bundle rs k r found = ground (arith, eq_iff key k, ap (λ j. receipt_of j rs))

pub promises-keeps :
    (h : Hashing) (qs : List Request) (rs : List Receipt) (k : String) (r : Receipt)
    → receipt_of k rs ≡ some r
    → receipt_of k (promises h qs rs).1 ≡ some r
unfolding promises
promises-keeps h [] rs k r found = found
promises-keeps h (q ∷ qs) rs k r found =
    promises-keeps h qs (promise h q.key q.bundle rs).1 k r
      (promise-keeps h q.key q.bundle rs k r found)

-- A request that was answered with a record has its receipt, of just that payload and record.
pub promise-ok :
    (h : Hashing) (key : String) (bundle : EventBundle) (rs rs' : List Receipt)
    {made : IngestionRecord} {duplicate : Bool}
    → promise h key bundle rs ≡ (ok (made, duplicate), rs')
    → (r : Receipt) × (receipt_of key rs' ≡ some r)
      × (r.payload_hash ≡ bundle_payload_hash h bundle)
      × (r.summary ≡ made)
unfolding promise receipt_of bundle_payload_hash
promise-ok h key bundle rs rs' e = elim (Option-cases (receipt_of key rs)) [
  | inr (old, found) ↦ (
    old,
    ground (arith, eq_iff old.payload_hash (bundle_payload_hash h bundle)),
    ground (arith, eq_iff old.payload_hash (bundle_payload_hash h bundle)),
    ground (arith, eq_iff old.payload_hash (bundle_payload_hash h bundle)),
  )
  | inl new ↦ (new_receipt h key bundle, ground (arith, eq_refl key), refl, ground arith)
]
