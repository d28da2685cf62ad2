-- ===== src/Jobs/Histories.antt =====
-- Whole histories of the job table: any sequence of calls, from any number of workers and
-- operators, each at its own time and with the database up or down.
use incident_intelligence_pl.Prelude.{ℕ, Bool, String, List, [], ◌∷◌}
use incident_intelligence_pl.Failure.{Availability}
use incident_intelligence_pl.Database.{Database, ClassificationResult, empty_database}
use incident_intelligence_pl.Jobs.Repository.{
  create_classification_job, retry_job, fail_job, complete_classification,
}
use incident_intelligence_pl.Jobs.Claiming.{claim_jobs}
use incident_intelligence_pl.Jobs.Tables.{
  IsValid, create_classification_job-IsValid, retry_job-IsValid, fail_job-IsValid,
  complete_classification-IsValid,
}
use incident_intelligence_pl.Jobs.Claims.{claim_jobs-IsValid}

-- A call of the repository, or a transaction of another component, which leaves the tables of
-- jobs and classifications alone and may change every other table.
pub data Call : Type 0 where
  creates : Availability → ℕ → ℕ → ℕ → ℕ → Call
  retries : Availability → ℕ → ℕ → Call
  claims : Availability → String → ℕ → ℕ → (ℕ → ℕ) → (ℕ → Bool) → Call
  fails : Availability → ℕ → ℕ → String → ℕ → Bool → Call
  completes : Availability → ℕ → ℕ → ℕ → ClassificationResult → ℕ → Call
  elsewhere : Database → Call

unfoldable pub apply : Call → Database → Database
apply (creates a now job_id incident_id max_attempts) db =
    (create_classification_job a now job_id incident_id max_attempts db).1
apply (retries a now job_id) db = (retry_job a now job_id db).1
apply (claims a worker_id limit now uuid4 locked) db =
    (claim_jobs a worker_id limit now uuid4 locked db).1
apply (fails a now job_id error_class claim_token retryable) db =
    (fail_job a now job_id error_class claim_token retryable db).1
apply (completes a now result_id job_id result claim_token) db =
    (complete_classification a now result_id job_id result claim_token db).1
apply (elsewhere other) db = record other {
  outbox_jobs = db.outbox_jobs;
  classifications = db.classifications;
}

unfoldable pub run : List Call → Database → Database
unfolding apply
run [] db = db
run (c ∷ cs) db = run cs (apply c db)

pub apply-IsValid : (c : Call) (db : Database) → IsValid db → IsValid (apply c db)
unfolding apply
apply-IsValid (creates a now job_id incident_id max_attempts) db v =
    create_classification_job-IsValid a now job_id incident_id max_attempts db v
apply-IsValid (retries a now job_id) db v = retry_job-IsValid a now job_id db v
apply-IsValid (claims a worker_id limit now uuid4 locked) db v =
    claim_jobs-IsValid a worker_id limit now uuid4 locked db v
apply-IsValid (fails a now job_id error_class claim_token retryable) db v =
    fail_job-IsValid a now job_id error_class claim_token retryable db v
apply-IsValid (completes a now result_id job_id result claim_token) db v =
    complete_classification-IsValid a now result_id job_id result claim_token db v
apply-IsValid (elsewhere other) db v = record { rows = v.rows; distinct = v.distinct }

run-from-IsValid : (calls : List Call) (db : Database) → IsValid db → IsValid (run calls db)
unfolding run
run-from-IsValid [] db v = v
run-from-IsValid (c ∷ cs) db v = run-from-IsValid cs (apply c db) (apply-IsValid c db v)

-- After any history that starts from the empty database, job identifiers are unique and every job
-- is well formed: its attempts are within the limit, a waiting job has one left, exactly the jobs
-- in process carry a claim, exactly the completed ones a result, and a failed one its error class.
pub run-IsValid : (calls : List Call) → IsValid (run calls empty_database)
run-IsValid calls = run-from-IsValid calls empty_database (record { rows = tt; distinct = tt })
