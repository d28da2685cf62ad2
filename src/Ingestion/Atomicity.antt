-- ===== src/Ingestion/Atomicity.antt =====
-- An ingestion writes all of its rows or none, whether or not identifiers clash and the database
-- answers.
use incident_intelligence_pl.Prelude.{
  ℕ, ◌≡◌, refl, ap, String, Bool, true, false, List, [], ◌∷◌, arith, map, str_eq, Bool-cases,
  Option-cases, inl, inr,
}
use incident_intelligence_pl.Failure.{Result, ok, err, up, down, Availability, settle, Result-cases}
use incident_intelligence_pl.Database.{Database, EvidenceRow, IngestionRecord}
use incident_intelligence_pl.Schemas.{EventBundle}
use incident_intelligence_pl.Ingestion.{Hashing, new_record, bundle_payload_hash}
use incident_intelligence_pl.Ingestion.Postgres.{
  find_receipt, insert_evidence, evidence_row, accept_bundle, ingest_body, ingest_failure,
  rethrow_first, ingest_postgres,
}
use incident_intelligence_pl.Ingestion.Refinement.{stored_events, accepted}

-- The database after an answer, given the one before it and the one that holds the new rows.
abbrev pub AllOrNothing :
    IngestionRecord → Database → Database → Result (IngestionRecord × Bool) → Database → Type 0
AllOrNothing fresh db full (ok (made, false)) db' = (made ≡ fresh) × (db' ≡ full)
AllOrNothing fresh db full (ok (made, true)) db' = db' ≡ db
AllOrNothing fresh db full (err e) db' = db' ≡ db

insert_evidence-ok :
    (rs rows final : List EvidenceRow)
    → insert_evidence rs rows ≡ ok final
    → final ≡ stored_events rs rows
unfolding insert_evidence stored_events
insert_evidence-ok [] rows final h = ground arith
insert_evidence-ok (r ∷ rs) rows final h = insert_evidence-ok rs (r ∷ rows) final (ground arith)

accept_bundle-ok :
    (h : Hashing) (now incident_id : ℕ) (key : String) (bundle : EventBundle) (db db' : Database)
    {answer : IngestionRecord × Bool}
    → accept_bundle h now incident_id key bundle db ≡ ok (answer, db')
    → (answer ≡ (new_record key bundle, false)) × (db' ≡ accepted h now incident_id key bundle db)
unfolding accept_bundle accepted
accept_bundle-ok h now incident_id key bundle db db' e =
    let rows = map (evidence_row incident_id) bundle.logs in
    elim (Result-cases (insert_evidence rows db.evidence_events)) [
      | inl (failure, bad) ↦ absurd (ground arith)
      | inr (final, good) ↦
          let same = insert_evidence-ok rows db.evidence_events final good in
          (ground arith, ground (arith, same))
    ]

ingest_body-AllOrNothing :
    (h : Hashing) (now incident_id : ℕ) (key : String) (bundle : EventBundle) (db : Database)
    → let (answer, db') =
        rethrow_first ingest_failure (settle db (ingest_body h now incident_id key bundle db)) in
      AllOrNothing (new_record key bundle) db (accepted h now incident_id key bundle db) answer db'
unfolding ingest_body
ingest_body-AllOrNothing h now incident_id key bundle db =
    elim (Option-cases (find_receipt key db.event_ingestions)) [
      | inr (old, found) ↦
          rw found (elim (Bool-cases (str_eq old.payload_hash (bundle_payload_hash h bundle))) [
            | inl same ↦ rw same refl
            | inr other ↦ rw other refl
          ])
      | inl new ↦ elim (Result-cases (accept_bundle h now incident_id key bundle db)) [
        | inl (failure, bad) ↦ rw (new, bad) refl
        | inr ((answer, db'), good) ↦
            let (made, full) =
              accept_bundle-ok h now incident_id key bundle db db' {answer = answer} good in
            rw (new, good, made) (ap (λ x. x.0) made, full)
      ]
    ]

-- Whatever the database holds and whether it answers: an accepted bundle has left exactly one new
-- receipt, incident and ticket and all its events, and any other answer, error or duplicate, has
-- left the database as it was.
pub ingest_postgres-AllOrNothing :
    (a : Availability) (h : Hashing) (now incident_id : ℕ) (key : String) (bundle : EventBundle)
    (db : Database)
    → let (answer, db') = ingest_postgres a h now incident_id key bundle db in
      AllOrNothing (new_record key bundle) db (accepted h now incident_id key bundle db) answer db'
unfolding ingest_postgres
ingest_postgres-AllOrNothing up h now incident_id key bundle db =
    ingest_body-AllOrNothing h now incident_id key bundle db
ingest_postgres-AllOrNothing down h now incident_id key bundle db = refl
