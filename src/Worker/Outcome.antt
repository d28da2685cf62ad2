-- ===== src/Worker/Outcome.antt =====
-- What one pass of the worker makes of a job that it holds.
use incident_intelligence_pl.Prelude.{
  ℕ, ◌≡◌, refl, sym, ◌∙◌, ap, String, Bool, true, false, ◌&&◌, ltb, Option, none, some, arith,
  Bool-cases, inl, inr, if◌then◌else◌, ◌==◌,
}
use incident_intelligence_pl.Prelude.Keyed
use incident_intelligence_pl.Prelude.Keyed.{find_row, update_row}
use incident_intelligence_pl.Failure.{
  Failure, storage_unavailable, class_name, Result, ok, err, Availability, up, down,
}
use incident_intelligence_pl.Database.{
  Database, JobRow, ClassificationResult, retry_pending, failed,
}
use incident_intelligence_pl.Schemas.{EventBundle}
use incident_intelligence_pl.Jobs.{JobRecord, job_from_row, is_completed}
use incident_intelligence_pl.Jobs.Repository.{
  job_key, classification_key, owned_by, complete, record_failure, insert_classification,
  complete_classification, fail_job,
}
use incident_intelligence_pl.Jobs.Outcomes.{
  saved_result, with_job, with_result, complete-KeepsId, record_failure-KeepsId,
}
use incident_intelligence_pl.Worker.{
  Turn, Counters, is_invalid_job_state, is_retryable, count_failure, classify_job, report_error,
  handled, store_or_report, work_on,
}
use incident_intelligence_pl.Worker.Verdict.{
  verdict, attempted, failed_row, settled_row, one_more, failed_counters, settled_counters, saved,
  failed_db, settled_db, verdict_lem,
}

module _ (job_id token : ℕ) (db : Database) (row : JobRow) where
  -- The owner of a job that is not completed stores its result.
  owner-completes :
      (now result_id : ℕ) (result : ClassificationResult)
      → find_row job_key job_id db.outbox_jobs ≡ some row
      → owned_by row token ≡ true
      → find_row classification_key result_id db.classifications ≡ none
      → complete_classification up now result_id job_id result token db ≡ (
        ok (job_from_row (complete result_id now row)),
        with_result now result_id job_id result row db,
      )
  unfolding complete_classification insert_classification
  owner-completes now result_id result found owned fresh =
      let open_yet : is_completed row.state ≡ false = ground (arith, owned) in
      let write =
        Keyed.find_row-update_row_self job_key job_id (complete result_id now) db.outbox_jobs row
          (complete-KeepsId result_id now) found in
      rw (found, open_yet, owned, fresh, write) refl

  -- The owner of a job records its failure.
  owner-fails :
      (now : ℕ) (error_class : String) (retryable : Bool)
      → find_row job_key job_id db.outbox_jobs ≡ some row
      → owned_by row token ≡ true
      → fail_job up now job_id error_class token retryable db ≡ (
        ok (job_from_row (record_failure row error_class retryable now row)),
        with_job job_id (record_failure row error_class retryable now) db,
      )
  unfolding fail_job
  owner-fails now error_class retryable found owned =
      let write =
        Keyed.find_row-update_row_self job_key job_id (record_failure row error_class retryable now)
          db.outbox_jobs row (record_failure-KeepsId row error_class retryable now) found in
      rw (found, owned, write) refl

module _ (t : Turn) (job_id : ℕ) (db : Database) (row : JobRow)
    (found : find_row job_key job_id db.outbox_jobs ≡ some row)
    (fresh : find_row classification_key t.result_id db.classifications ≡ none) where
  -- A pass that settles the job has found it settled in its row.
  pub settled-found :
      (r : Result ClassificationResult)
      → find_row job_key job_id (settled_db t job_id r row db).outbox_jobs
        ≡ some (settled_row t r row)
  settled-found (ok result) =
      Keyed.find_row-update_row_self job_key job_id (complete t.result_id t.completed_at)
        db.outbox_jobs row (complete-KeepsId t.result_id t.completed_at) found
  settled-found (err e) = by_verdict (verdict e)
    where
      by_verdict :
          (v : Option Bool)
          → find_row job_key job_id (failed_db t job_id e v row db).outbox_jobs
            ≡ some (failed_row t e v row)
      by_verdict none = found
      by_verdict (some retryable) =
          Keyed.find_row-update_row_self job_key job_id
            (record_failure row (class_name e) retryable t.failed_at) db.outbox_jobs row
            (record_failure-KeepsId row (class_name e) retryable t.failed_at) found

  pub settled-saved :
      (r : Result ClassificationResult)
      → find_row classification_key t.result_id (settled_db t job_id r row db).classifications
        ≡ saved t r row
  settled-saved (ok result) =
      let same : (t.result_id == t.result_id) ≡ true = ground arith in
      Keyed.find_row-cons classification_key t.result_id
        (saved_result t.completed_at t.result_id result row) db.classifications
      ∙ rw same refl
  settled-saved (err e) = by_verdict (verdict e)
    where
      by_verdict :
          (v : Option Bool)
          → find_row classification_key t.result_id (failed_db t job_id e v row db).classifications
            ≡ none
      by_verdict none = fresh
      by_verdict (some retryable) = fresh

module _ (collated : String → String → Bool)
    (classifier : EventBundle → Result ClassificationResult) (t : Turn) (job_id token : ℕ)
    (db : Database) (m : Option Counters) (row : JobRow)
    (found : find_row job_key job_id db.outbox_jobs ≡ some row) (owned : owned_by row token ≡ true)
    (reports : t.reports ≡ up)
    (fresh : find_row classification_key t.result_id db.classifications ≡ none) where
  counted :
      (retryable : Bool) (error_class : String)
      → count_failure (record_failure row error_class retryable t.failed_at row).state m
        ≡ failed_counters (some retryable) row m
  unfolding count_failure record_failure
  counted retryable error_class = by_retry m (retryable && ltb row.attempt_count row.max_attempts)
    where
      by_retry :
          (n : Option Counters) (retry : Bool)
          → count_failure (if retry then retry_pending else failed) n ≡ one_more retry n
      by_retry none true = refl
      by_retry none false = refl
      by_retry (some n) true = refl
      by_retry (some n) false = refl

  report_error-settles :
      (e : Failure)
      → report_error collated classifier t job_id token e (db, m)
        ≡ (ok tt, (settled_db t job_id (err e) row db, settled_counters (err e) row m))
  unfolding report_error record_failure job_from_row
  report_error-settles e = elim (Bool-cases (is_invalid_job_state e)) [
    | inl given_up ↦ rw (verdict_lem e, given_up) refl
    | inr other ↦
        rw
          (
            verdict_lem e,
            other,
            reports,
            owner-fails job_id token db row t.failed_at (class_name e) (is_retryable e) found owned,
            sym (counted (is_retryable e) (class_name e)),
          )
          refl
  ]

  store_or_report-settles :
      (r : Result ClassificationResult)
      → store_or_report collated classifier t job_id token r (db, m) ≡ (
        ok tt,
        (
          settled_db t job_id (attempted t.writes r) row db,
          settled_counters (attempted t.writes r) row m,
        ),
      )
  unfolding store_or_report complete_classification
  store_or_report-settles (err e) = report_error-settles e
  store_or_report-settles (ok result) = by_writes t.writes
    where
      by_writes :
          (w : Availability)
          → handled collated classifier t job_id token m
              (complete_classification w t.completed_at t.result_id job_id result token db)
            ≡ (
              ok tt,
              (
                settled_db t job_id (attempted w (ok result)) row db,
                settled_counters (attempted w (ok result)) row m,
              ),
            )
      by_writes up =
          ap (handled collated classifier t job_id token m) (
            owner-completes job_id token db row t.completed_at t.result_id result found owned fresh)
      by_writes down = report_error-settles storage_unavailable

  -- What a pass returns and leaves.
  pub work_on_lem :
      (job : JobRecord)
      → job.job_id ≡ job_id
      → let r = attempted t.writes (classify_job collated classifier t.reads job.incident_id db) in
        work_on collated classifier t job (some token) (db, m)
        ≡ (ok tt, (settled_db t job_id r row db, settled_counters r row m))
  unfolding work_on
  work_on_lem job same =
      rw same
        (store_or_report-settles (classify_job collated classifier t.reads job.incident_id db))

-- One pass over a job that the worker still holds, while failures can be recorded and the result's
-- identifier is new, ends without an exception, and what has come of it is this. If classifying gave
-- a result and the database took it, the job's row is completed, the result is stored under its
-- identifier with the job's incident, and the counters stand. If classifying raised
-- `InvalidJobState`, the row and the counters stand. Otherwise classifying raised, or the database
-- did not take the result, which counts as `StorageUnavailable`: the row has the failure recorded
-- under the name of the exception's class, as retryable exactly for `RetryableJobError` and
-- `StorageUnavailable`, and one is added to the retried jobs if it was retryable and attempts are
-- left, to the failed jobs if not. No result is stored in the last two cases.
pub work_on-settles :
    (collated : String → String → Bool) (classifier : EventBundle → Result ClassificationResult)
    (t : Turn) (job : JobRecord) (token : ℕ) (db : Database) (m : Option Counters) (row : JobRow)
    → t.reports ≡ up
    → find_row job_key job.job_id db.outbox_jobs ≡ some row
    → owned_by row token ≡ true
    → find_row classification_key t.result_id db.classifications ≡ none
    → let r = attempted t.writes (classify_job collated classifier t.reads job.incident_id db) in
      let (answer, state) = work_on collated classifier t job (some token) (db, m) in
      (answer ≡ ok tt)
      × (find_row job_key job.job_id state.0.outbox_jobs ≡ some (settled_row t r row))
      × (find_row classification_key t.result_id state.0.classifications ≡ saved t r row)
      × (state.1 ≡ settled_counters r row m)
work_on-settles collated classifier t job token db m row reports found owned fresh =
    let r = attempted t.writes (classify_job collated classifier t.reads job.incident_id db) in
    rw
      (work_on_lem collated classifier t job.job_id token db m row found owned reports fresh job
        refl)
      (
        refl,
        settled-found t job.job_id db row found fresh r,
        settled-saved t job.job_id db row found fresh r,
        refl,
      )
