-- ===== src/Jobs/Tables.antt =====
-- The job table as a whole: its rows are well formed and its primary key holds, whatever sequence
-- of transactions ran.
use incident_intelligence_pl.Prelude.{
  ℕ, ◌≡◌, Bool, String, some, arith, ltb, All, Bool-cases, inl, inr, subst, sym,
}
use incident_intelligence_pl.Prelude.Keyed
use incident_intelligence_pl.Prelude.Keyed.{find_row, update_row, Distinct}
use incident_intelligence_pl.Failure.{Availability, engine_begin-keeps}
use incident_intelligence_pl.Database.{Database, JobRow, ClassificationResult}
use incident_intelligence_pl.Jobs.Repository.{
  job_key, new_job, requeue, record_failure, complete, create_job_body, retry_body, fail_body,
  complete_body, create_classification_job, retry_job, fail_job, complete_classification,
}
use incident_intelligence_pl.Jobs.Invariant.{
  WellFormed, new_job-WellFormed, requeue-WellFormed, record_failure-WellFormed,
  complete-WellFormed,
}
use incident_intelligence_pl.Jobs.Outcomes.{
  KeepsId, with_job, requeue-KeepsId, record_failure-KeepsId, complete-KeepsId, create_job_body-ok,
  retry_body-ok, fail_body-ok, complete_body-ok,
}

pub record IsValid (db : Database) : Type 0 where
  pub rows : All WellFormed db.outbox_jobs
  pub distinct : Distinct job_key db.outbox_jobs

-- The row that an identifier finds is well formed.
pub found-WellFormed :
    (db : Database) (job_id : ℕ) {r : JobRow}
    → IsValid db
    → find_row job_key job_id db.outbox_jobs ≡ some r
    → WellFormed r
found-WellFormed db job_id {r} v e =
    Keyed.All-find_row job_key WellFormed job_id db.outbox_jobs r v.rows e

-- An update of one job keeps the table valid if it turns the found row into a well-formed one.
pub with_job-IsValid :
    (db : Database) (job_id : ℕ) (change : JobRow → JobRow) {current : JobRow}
    → IsValid db
    → find_row job_key job_id db.outbox_jobs ≡ some current
    → KeepsId change
    → WellFormed (change current)
    → IsValid (with_job job_id change db)
with_job-IsValid db job_id change v found keep w = record {
  rows =
      Keyed.All-update_found job_key WellFormed job_id change db.outbox_jobs v.distinct found w
        v.rows;
  distinct = Keyed.Distinct-update_row job_key job_id change db.outbox_jobs keep v.distinct;
}

pub create_classification_job-IsValid :
    (a : Availability) (now job_id incident_id max_attempts : ℕ) (db : Database)
    → IsValid db
    → IsValid (create_classification_job a now job_id incident_id max_attempts db).1
unfolding create_classification_job
create_classification_job-IsValid a now job_id incident_id max_attempts db v =
    elim (Bool-cases (ltb max_attempts 1)) [
      | inl e ↦ rw e v
      | inr e ↦ rw e (
          engine_begin-keeps IsValid a (create_job_body now job_id incident_id max_attempts) db v
            (λ row db' h.
              let (made, fresh, stored) =
                create_job_body-ok now job_id incident_id max_attempts db db' h in
              subst IsValid (sym stored) (record {
                rows = (
                  subst WellFormed (sym made)
                      (new_job-WellFormed job_id incident_id max_attempts now (ground arith)),
                  v.rows,
                );
                distinct = (
                  rw (made, new_job) (Keyed.find_row-none_ne job_key job_id db.outbox_jobs fresh),
                  v.distinct,
                );
              })))
    ]

pub retry_job-IsValid :
    (a : Availability) (now job_id : ℕ) (db : Database)
    → IsValid db
    → IsValid (retry_job a now job_id db).1
unfolding retry_job
retry_job-IsValid a now job_id db v =
    engine_begin-keeps IsValid a (retry_body now job_id) db v (λ row db' h.
      let (current, found, dead, made, stored) = retry_body-ok now job_id db db' h in
      subst IsValid (sym stored) (
        with_job-IsValid db job_id (requeue current now) v found (requeue-KeepsId current now)
          (requeue-WellFormed current now (found-WellFormed db job_id v found) dead)))

pub fail_job-IsValid :
    (a : Availability) (now job_id : ℕ) (error_class : String) (claim_token : ℕ) (retryable : Bool)
    (db : Database)
    → IsValid db
    → IsValid (fail_job a now job_id error_class claim_token retryable db).1
unfolding fail_job
fail_job-IsValid a now job_id error_class claim_token retryable db v =
    engine_begin-keeps IsValid a (fail_body now job_id error_class claim_token retryable) db v
      (λ row db' h.
        let (current, found, owned, made, stored) =
          fail_body-ok now job_id error_class claim_token retryable db db' h in
        subst IsValid (sym stored) (
          with_job-IsValid db job_id (record_failure current error_class retryable now) v found
            (record_failure-KeepsId current error_class retryable now)
            (record_failure-WellFormed current error_class retryable now
              (found-WellFormed db job_id v found) (ground arith))))

pub complete_classification-IsValid :
    (a : Availability) (now result_id job_id : ℕ) (result : ClassificationResult) (claim_token : ℕ)
    (db : Database)
    → IsValid db
    → IsValid (complete_classification a now result_id job_id result claim_token db).1
unfolding complete_classification
complete_classification-IsValid a now result_id job_id result claim_token db v =
    engine_begin-keeps IsValid a (complete_body now result_id job_id result claim_token) db v
      (λ row db' h.
        let (current, found, cases) =
          complete_body-ok now result_id job_id result claim_token db db' h in
        elim cases [
          | inl (done, made, stored) ↦ subst IsValid (sym stored) v
          | inr (owned, made, fresh, stored) ↦
              let good =
                with_job-IsValid db job_id (complete result_id now) v found
                  (complete-KeepsId result_id now)
                  (complete-WellFormed current result_id now (found-WellFormed db job_id v found)
                    (ground arith)) in
              subst IsValid (sym stored) (record { rows = good.rows; distinct = good.distinct })
        ])
