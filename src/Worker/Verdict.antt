-- ===== src/Worker/Verdict.antt =====
-- What is to become of a job by what its classification gave, as a table of the exceptions.
use incident_intelligence_pl.Prelude.{
  ℕ, ◌+◌, ◌≡◌, refl, Bool, true, false, ◌&&◌, ltb, Option, none, some, if◌then◌else◌,
}
use incident_intelligence_pl.Failure.{
  Failure, value_error, value_error_with, permission_error, invalid_token, invalid_cursor,
  incident_not_found, job_not_found, invalid_job_state, retryable_job_error, draft_not_found,
  draft_state_conflict, idempotency_conflict, correlation_conflict, storage_unavailable,
  storage_integrity_error, integrity_error, sqlalchemy_error, other_error, class_name, Result, ok,
  err, Availability, up, down,
}
use incident_intelligence_pl.Database.{Database, JobRow, ClassificationRow, ClassificationResult}
use incident_intelligence_pl.Jobs.Repository.{complete, record_failure}
use incident_intelligence_pl.Jobs.Outcomes.{with_job, with_result}
use incident_intelligence_pl.Worker.{Turn, Counters, is_invalid_job_state, is_retryable}

-- What the worker owes to an exception: nothing where the job is no longer its own, otherwise a
-- recorded failure, to be retried after an outage of the storage or where the exception asks for it.
abbrev pub verdict : Failure → Option Bool
verdict invalid_job_state = none
verdict retryable_job_error = some true
verdict storage_unavailable = some true
verdict _ = some false

-- What comes of a classification when its result is to be stored.
abbrev pub attempted : Availability → Result ClassificationResult → Result ClassificationResult
attempted w (err e) = err e
attempted up (ok result) = ok result
attempted down (ok result) = err storage_unavailable

abbrev pub failed_row : Turn → Failure → Option Bool → JobRow → JobRow
failed_row t e none row = row
failed_row t e (some retryable) row = record_failure row (class_name e) retryable t.failed_at row

-- The row of a held job after a pass, by what came of it.
abbrev pub settled_row : Turn → Result ClassificationResult → JobRow → JobRow
settled_row t (ok result) row = complete t.result_id t.completed_at row
settled_row t (err e) row = failed_row t e (verdict e) row

abbrev pub one_more : Bool → Option Counters → Option Counters
one_more retry none = none
one_more true (some m) = some (record m { retried = m.retried + 1 })
one_more false (some m) = some (record m { failed = m.failed + 1 })

abbrev pub failed_counters : Option Bool → JobRow → Option Counters → Option Counters
failed_counters none row m = m
failed_counters (some retryable) row m =
    one_more (retryable && ltb row.attempt_count row.max_attempts) m

-- The counters after the pass: one more retried if attempts are left, one more failed if not.
abbrev pub settled_counters :
    Result ClassificationResult → JobRow → Option Counters → Option Counters
settled_counters (ok result) row m = m
settled_counters (err e) row m = failed_counters (verdict e) row m

-- The stored classification under the result's identifier.
abbrev pub saved : Turn → Result ClassificationResult → JobRow → Option ClassificationRow
saved t (err e) row = none
saved t (ok result) row = some record {
  id = t.result_id;
  incident_id = row.incident_id;
  result = result;
  created_at = t.completed_at;
}

-- The whole database after the pass.
abbrev pub failed_db : Turn → ℕ → Failure → Option Bool → JobRow → Database → Database
failed_db t job_id e none row db = db
failed_db t job_id e (some retryable) row db =
    with_job job_id (record_failure row (class_name e) retryable t.failed_at) db

abbrev pub settled_db : Turn → ℕ → Result ClassificationResult → JobRow → Database → Database
settled_db t job_id (ok result) row db = with_result t.completed_at t.result_id job_id result row db
settled_db t job_id (err e) row db = failed_db t job_id e (verdict e) row db

pub verdict_lem :
    (e : Failure) → verdict e ≡ (if is_invalid_job_state e then none else some (is_retryable e))
verdict_lem value_error = refl
verdict_lem (value_error_with message) = refl
verdict_lem permission_error = refl
verdict_lem invalid_token = refl
verdict_lem invalid_cursor = refl
verdict_lem incident_not_found = refl
verdict_lem job_not_found = refl
verdict_lem invalid_job_state = refl
verdict_lem retryable_job_error = refl
verdict_lem draft_not_found = refl
verdict_lem draft_state_conflict = refl
verdict_lem idempotency_conflict = refl
verdict_lem correlation_conflict = refl
verdict_lem storage_unavailable = refl
verdict_lem storage_integrity_error = refl
verdict_lem (integrity_error name) = refl
verdict_lem sqlalchemy_error = refl
verdict_lem (other_error name) = refl
