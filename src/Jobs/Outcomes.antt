-- ===== src/Jobs/Outcomes.antt =====
-- What a transaction of the job repository that goes through has found and written.
use incident_intelligence_pl.Prelude.{
  ℕ, ◌≡◌, refl, Bool, true, String, none, some, ◌∷◌, arith, Option-cases, inl, inr, ◌⊎◌,
}
use incident_intelligence_pl.Prelude.Keyed
use incident_intelligence_pl.Prelude.Keyed.{find_row, update_row}
use incident_intelligence_pl.Failure.{ok, err, Result, up, engine_begin, settle}
use incident_intelligence_pl.Database.{Database, JobRow, ClassificationRow, ClassificationResult}
use incident_intelligence_pl.Jobs.{JobRecord, job_from_row, is_completed, is_failed}
use incident_intelligence_pl.Jobs.Repository.{
  job_key, classification_key, insert_job, insert_classification, new_job, requeue, record_failure,
  complete, create_job_body, retry_body, fail_body, complete_body, store_result, update_job,
  owned_by, as_record,
}

abbrev pub KeepsId : (JobRow → JobRow) → Type 0
KeepsId change = (r : JobRow) → (change r).id ≡ r.id

abbrev pub with_job : ℕ → (JobRow → JobRow) → Database → Database
with_job job_id change db = record db {
  outbox_jobs = update_row job_key job_id change db.outbox_jobs;
}

pub requeue-KeepsId : (current : JobRow) (now : ℕ) → KeepsId (requeue current now)
unfolding requeue
requeue-KeepsId current now r = refl

pub record_failure-KeepsId :
    (current : JobRow) (error_class : String) (retryable : Bool) (now : ℕ)
    → KeepsId (record_failure current error_class retryable now)
unfolding record_failure
record_failure-KeepsId current error_class retryable now r = refl

pub complete-KeepsId : (result_id now : ℕ) → KeepsId (complete result_id now)
unfolding complete
complete-KeepsId result_id now r = refl

pub update_job-found :
    (job_id : ℕ) (change : JobRow → JobRow) (db : Database) {current : JobRow}
    → KeepsId change
    → find_row job_key job_id db.outbox_jobs ≡ some current
    → update_job job_id change db ≡ ok (change current, with_job job_id change db)
update_job-found job_id change db {current} keep found =
    rw (Keyed.find_row-update_row_self job_key job_id change db.outbox_jobs current keep found)

-- A new job: its row is put in front of a table that had no job of that identifier.
pub create_job_body-ok :
    (now job_id incident_id max_attempts : ℕ) (db db' : Database) {row : JobRow}
    → create_job_body now job_id incident_id max_attempts db ≡ ok (row, db')
    → (row ≡ new_job job_id incident_id max_attempts now)
      × (find_row job_key job_id db.outbox_jobs ≡ none)
      × (db' ≡ record db { outbox_jobs = row ∷ db.outbox_jobs })
unfolding create_job_body insert_job new_job
create_job_body-ok now job_id incident_id max_attempts db db' h = ground arith

-- A job that was requeued had failed.
pub retry_body-ok :
    (now job_id : ℕ) (db db' : Database) {row : JobRow}
    → retry_body now job_id db ≡ ok (row, db')
    → (current : JobRow) × (find_row job_key job_id db.outbox_jobs ≡ some current)
      × (is_failed current.state ≡ true)
      × (row ≡ requeue current now current)
      × (db' ≡ with_job job_id (requeue current now) db)
unfolding retry_body
retry_body-ok now job_id db db' h = elim (Option-cases (find_row job_key job_id db.outbox_jobs)) [
  | inl e ↦ absurd (ground arith)
  | inr (current, e) ↦
      let write =
        update_job-found job_id (requeue current now) db (requeue-KeepsId current now) e in
      (current, e, ground arith, ground (arith, write), ground (arith, write))
]

-- A job that was failed was owned by the caller.
pub fail_body-ok :
    (now job_id : ℕ) (error_class : String) (claim_token : ℕ) (retryable : Bool) (db db' : Database)
    {row : JobRow}
    → fail_body now job_id error_class claim_token retryable db ≡ ok (row, db')
    → (current : JobRow) × (find_row job_key job_id db.outbox_jobs ≡ some current)
      × (owned_by current claim_token ≡ true)
      × (row ≡ record_failure current error_class retryable now current)
      × (db' ≡ with_job job_id (record_failure current error_class retryable now) db)
unfolding fail_body
fail_body-ok now job_id error_class claim_token retryable db db' h =
    elim (Option-cases (find_row job_key job_id db.outbox_jobs)) [
      | inl e ↦ absurd (ground arith)
      | inr (current, e) ↦
          let write =
            update_job-found job_id (record_failure current error_class retryable now) db
              (record_failure-KeepsId current error_class retryable now) e in
          (current, e, ground arith, ground (arith, write), ground (arith, write))
    ]

-- The classification that a completion stores.
abbrev pub saved_result : ℕ → ℕ → ClassificationResult → JobRow → ClassificationRow
saved_result now result_id result current = record {
  id = result_id;
  incident_id = current.incident_id;
  result = result;
  created_at = now;
}

abbrev pub with_result : ℕ → ℕ → ℕ → ClassificationResult → JobRow → Database → Database
with_result now result_id job_id result current db = record db {
  classifications = saved_result now result_id result current ∷ db.classifications;
  outbox_jobs = update_row job_key job_id (complete result_id now) db.outbox_jobs;
}

-- A completion that goes through found the job completed already and changed nothing, or the
-- caller owned it, and its result and its new state were stored together.
pub complete_body-ok :
    (now result_id job_id : ℕ) (result : ClassificationResult) (claim_token : ℕ) (db db' : Database)
    {row : JobRow}
    → complete_body now result_id job_id result claim_token db ≡ ok (row, db')
    → (current : JobRow) × (find_row job_key job_id db.outbox_jobs ≡ some current)
      × (((is_completed current.state ≡ true) × (row ≡ current) × (db' ≡ db))
          ⊎ ((owned_by current claim_token ≡ true)
              × (row ≡ complete result_id now current)
              × (find_row classification_key result_id db.classifications ≡ none)
              × (db' ≡ with_result now result_id job_id result current db)))
unfolding complete_body store_result insert_classification
complete_body-ok now result_id job_id result claim_token db db' h =
    elim (Option-cases (find_row job_key job_id db.outbox_jobs)) [
      | inl e ↦ absurd (ground arith)
      | inr (current, e) ↦
          let write =
            update_job-found job_id (complete result_id now)
              (record db {
                classifications = saved_result now result_id result current ∷ db.classifications;
              })
              (complete-KeepsId result_id now) e in
          (current, e, ground (arith, write))
    ]

-- A call that returns a record ran its block to the end.
pub as_record-ok :
    (body : Database → Result (JobRow × Database)) (db db' : Database) {x : JobRecord}
    → as_record (engine_begin up body db) ≡ (ok x, db')
    → (row : JobRow) × (body db ≡ ok (row, db')) × (x ≡ job_from_row row)
as_record-ok body db db' {x} h = go (body db) refl h
  where
    go :
        (r : Result (JobRow × Database))
        → body db ≡ r
        → as_record (settle db r) ≡ (ok x, db')
        → (row : JobRow) × (body db ≡ ok (row, db')) × (x ≡ job_from_row row)
    go (ok (row, db₁)) e k = (row, ground arith, ground arith)
    go (err f) e k = absurd (ground arith)
