-- ===== src/Worker/Frame.antt =====
-- What a pass over one job leaves alone: the other jobs, the other results, and all that a
-- classification reads.
use incident_intelligence_pl.Prelude.{
  ℕ, ◌≡◌, refl, ◌∙◌, ap, ◌≢◌, String, Bool, false, ◌==◌, Option, none, some, arith,
}
use incident_intelligence_pl.Prelude.Keyed
use incident_intelligence_pl.Prelude.Keyed.{find_row}
use incident_intelligence_pl.Failure.{
  Result, ok, err, class_name, Availability, up, down, rethrow, hide_sql,
}
use incident_intelligence_pl.Database.{Database, JobRow, IncidentRow, ClassificationResult}
use incident_intelligence_pl.Schemas.{EventBundle}
use incident_intelligence_pl.Incidents.{detail_of, get_incident}
use incident_intelligence_pl.Jobs.Repository.{
  incident_key, job_key, classification_key, complete, record_failure,
}
use incident_intelligence_pl.Jobs.Outcomes.{saved_result, complete-KeepsId, record_failure-KeepsId}
use incident_intelligence_pl.Worker.{Turn, classify_job}
use incident_intelligence_pl.Worker.Verdict.{verdict, failed_db, settled_db}

pub record SameIncidents (db db' : Database) : Type 0 where
  pub incidents : db'.incidents ≡ db.incidents
  pub tickets : db'.support_tickets ≡ db.support_tickets
  pub evidence : db'.evidence_events ≡ db.evidence_events

detail_of-same :
    (collated : String → String → Bool) (incident_id : ℕ) (row : Option IncidentRow)
    (db db' : Database)
    → SameIncidents db db'
    → detail_of collated incident_id row db' ≡ detail_of collated incident_id row db
unfolding detail_of
detail_of-same collated incident_id none db db' h = refl
detail_of-same collated incident_id (some row) db db' h = rw (h.tickets, h.evidence) refl

get_incident-same :
    (collated : String → String → Bool) (a : Availability) (incident_id : ℕ) (db db' : Database)
    → SameIncidents db db'
    → get_incident collated a incident_id db' ≡ get_incident collated a incident_id db
unfolding get_incident
get_incident-same collated down incident_id db db' h = refl
get_incident-same collated up incident_id db db' h =
    ap
      (λ incidents.
        rethrow hide_sql
          (detail_of collated incident_id (find_row incident_key incident_id incidents) db'))
      h.incidents
    ∙ ap (rethrow hide_sql) (
        detail_of-same collated incident_id (find_row incident_key incident_id db.incidents) db db'
          h)

pub classify_job-same :
    (collated : String → String → Bool) (classifier : EventBundle → Result ClassificationResult)
    (reads : Availability) (incident_id : ℕ) (db db' : Database)
    → SameIncidents db db'
    → classify_job collated classifier reads incident_id db'
      ≡ classify_job collated classifier reads incident_id db
unfolding classify_job
classify_job-same collated classifier reads incident_id db db' h =
    rw (get_incident-same collated reads incident_id db db' h) refl

module _ (t : Turn) (job_id : ℕ) (db : Database) (row : JobRow) where
  pub settled_db-SameIncidents :
      (r : Result ClassificationResult) → SameIncidents db (settled_db t job_id r row db)
  settled_db-SameIncidents (ok result) = record {
    incidents = refl;
    tickets = refl;
    evidence = refl;
  }
  settled_db-SameIncidents (err e) = by_verdict (verdict e)
    where
      by_verdict : (v : Option Bool) → SameIncidents db (failed_db t job_id e v row db)
      by_verdict none = record { incidents = refl; tickets = refl; evidence = refl }
      by_verdict (some retryable) = record { incidents = refl; tickets = refl; evidence = refl }

  pub settled_db-other_job :
      (r : Result ClassificationResult) (j : ℕ)
      → j ≢ job_id
      → find_row job_key j (settled_db t job_id r row db).outbox_jobs
        ≡ find_row job_key j db.outbox_jobs
  settled_db-other_job (ok result) j ne =
      Keyed.find_row-update_row_ne job_key j job_id (complete t.result_id t.completed_at)
        db.outbox_jobs (complete-KeepsId t.result_id t.completed_at) ne
  settled_db-other_job (err e) j ne = by_verdict (verdict e)
    where
      by_verdict :
          (v : Option Bool)
          → find_row job_key j (failed_db t job_id e v row db).outbox_jobs
            ≡ find_row job_key j db.outbox_jobs
      by_verdict none = refl
      by_verdict (some retryable) =
          Keyed.find_row-update_row_ne job_key j job_id
            (record_failure row (class_name e) retryable t.failed_at) db.outbox_jobs
            (record_failure-KeepsId row (class_name e) retryable t.failed_at) ne

  pub settled_db-other_result :
      (r : Result ClassificationResult) (k : ℕ)
      → t.result_id ≢ k
      → find_row classification_key k (settled_db t job_id r row db).classifications
        ≡ find_row classification_key k db.classifications
  settled_db-other_result (ok result) k ne =
      let other : (t.result_id == k) ≡ false = ground (arith, ne) in
      Keyed.find_row-cons classification_key k (saved_result t.completed_at t.result_id result row)
        db.classifications
      ∙ rw other refl
  settled_db-other_result (err e) k ne = by_verdict (verdict e)
    where
      by_verdict :
          (v : Option Bool)
          → find_row classification_key k (failed_db t job_id e v row db).classifications
            ≡ find_row classification_key k db.classifications
      by_verdict none = refl
      by_verdict (some retryable) = refl
