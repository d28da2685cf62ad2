-- ===== src/Jobs/Repository.antt =====
-- postgres.py, `PostgresJobRepository`: its transactions over the whole database. An argument
-- `now` is the time that the call works with (`now or utc_now()`, or the server's `now()`), and
-- `uuid4` gives the identifiers that the call draws, by their position.
use mathlib.Core.Option
use incident_intelligence_pl.Prelude.{
  ℕ, ◌+◌, Bool, ◌&&◌, String, Option, none, some, List, [], ◌∷◌, ltb, if◌then◌else◌, first_chars,
  str_eq, is_some,
}
use incident_intelligence_pl.Prelude.Keyed.{find_row, update_row}
use incident_intelligence_pl.Failure.{
  value_error, job_not_found, invalid_job_state, sqlalchemy_error, integrity_error, Result, ok, err,
  ◌>>=◌, ◌>>◌, require, Availability, engine_begin, engine_connect, rethrow, hide_sql,
}
use incident_intelligence_pl.Database.{
  Database, JobRow, IncidentRow, ClassificationRow, ClassificationResult, pending, retry_pending,
  completed, failed,
}
use incident_intelligence_pl.Jobs.{
  JobRecord, job_from_row, retry_delay, is_processing, is_completed, is_failed, holds_token,
}

abbrev pub job_key : JobRow → ℕ
job_key r = r.id

abbrev pub incident_key : IncidentRow → ℕ
incident_key r = r.id

abbrev pub classification_key : ClassificationRow → ℕ
classification_key r = r.id

-- `.one()`: a statement that returns no row raises `NoResultFound`.
abbrev pub one {ℓ} : {A : Type ℓ} → Option A → Result A
one none = err sqlalchemy_error
one (some r) = ok r

-- `.one_or_none()` with `if current is None: raise JobNotFound`
abbrev pub or_not_found {ℓ} : {A : Type ℓ} → Option A → Result A
or_not_found none = err job_not_found
or_not_found (some r) = ok r

-- `INSERT` under the primary key of the table.
unfoldable pub insert_job : JobRow → List JobRow → Result (List JobRow)
insert_job r jobs =
    if is_some (find_row job_key r.id jobs)
    then err (integrity_error "pk_outbox_jobs")
    else ok (r ∷ jobs)

unfoldable pub insert_classification :
    ClassificationRow → List ClassificationRow → Result (List ClassificationRow)
insert_classification r rows =
    if is_some (find_row classification_key r.id rows)
    then err (integrity_error "pk_classifications")
    else ok (r ∷ rows)

-- The row of a new job: what the `INSERT` names, and the defaults of the columns.
unfoldable pub new_job : ℕ → ℕ → ℕ → ℕ → JobRow
new_job job_id incident_id max_attempts now = record {
  id = job_id;
  incident_id = incident_id;
  job_type = "classify_incident";
  payload = [];
  state = pending;
  attempt_count = 0;
  max_attempts = max_attempts;
  next_attempt_at = now;
  claimed_at = none;
  claimed_by = none;
  claim_token = none;
  completed_at = none;
  result_id = none;
  last_error_class = none;
  created_at = now;
  updated_at = now;
}

unfoldable pub create_job_body : ℕ → ℕ → ℕ → ℕ → Database → Result (JobRow × Database)
create_job_body now job_id incident_id max_attempts db = do
  exists ← or_not_found (find_row incident_key incident_id db.incidents)
  let row = new_job job_id incident_id max_attempts now
  jobs ← insert_job row db.outbox_jobs
  ok (row, record db { outbox_jobs = jobs })

-- The record that a transaction's row is turned into, when it has committed.
abbrev pub as_record : Result JobRow × Database → Result JobRecord × Database
as_record (r, db) = (rethrow hide_sql r >>= (λ row. ok (job_from_row row)), db)

unfoldable pub create_classification_job :
    Availability → ℕ → ℕ → ℕ → ℕ → Database → Result JobRecord × Database
unfolding create_job_body new_job insert_job
create_classification_job a now job_id incident_id max_attempts db =
    if ltb max_attempts 1
    then (err value_error, db)
    else as_record (engine_begin a (create_job_body now job_id incident_id max_attempts) db)

unfoldable pub get_job : Availability → ℕ → Database → Result (Option JobRecord)
get_job a job_id db = rethrow hide_sql (
    engine_connect a (λ d. ok (Option.map job_from_row (find_row job_key job_id d.outbox_jobs))) db)

unfoldable pub get_classification : Availability → ℕ → Database → Result (Option ClassificationRow)
get_classification a classification_id db = rethrow hide_sql (
    engine_connect a (λ d. ok (find_row classification_key classification_id d.classifications)) db)

-- `UPDATE outbox_jobs … WHERE id = job_id RETURNING …`
abbrev pub update_job : ℕ → (JobRow → JobRow) → Database → Result (JobRow × Database)
update_job job_id change db = do
  let jobs = update_row job_key job_id change db.outbox_jobs
  row ← one (find_row job_key job_id jobs)
  ok (row, record db { outbox_jobs = jobs })

-- `retry_job`: the columns that the `UPDATE` sets. The two readings of the clock in the statement are
-- one time.
unfoldable pub requeue : JobRow → ℕ → JobRow → JobRow
requeue current now row = record row {
  state = retry_pending;
  max_attempts = current.attempt_count + 1;
  next_attempt_at = now;
  claimed_at = none;
  claimed_by = none;
  claim_token = none;
  updated_at = now;
}

unfoldable pub retry_body : ℕ → ℕ → Database → Result (JobRow × Database)
retry_body now job_id db = do
  current ← or_not_found (find_row job_key job_id db.outbox_jobs)
  require (is_failed current.state) invalid_job_state
  update_job job_id (requeue current now) db

unfoldable pub retry_job : Availability → ℕ → ℕ → Database → Result JobRecord × Database
unfolding retry_body
retry_job a now job_id db = as_record (engine_begin a (retry_body now job_id) db)

-- `error_class[:80] or "UnknownError"`
unfoldable pub safe_error : String → String
safe_error error_class =
    if str_eq (first_chars 80 error_class) "" then "UnknownError" else first_chars 80 error_class

abbrev pub should_retry : Bool → JobRow → Bool
should_retry retryable current = retryable && ltb current.attempt_count current.max_attempts

-- `fail_job`: the columns that the `UPDATE` sets.
unfoldable pub record_failure : JobRow → String → Bool → ℕ → JobRow → JobRow
record_failure current error_class retryable failed_at row =
    let retry = should_retry retryable current in
    record row {
      state = if retry then retry_pending else failed;
      next_attempt_at =
          if retry then failed_at + retry_delay current.attempt_count else current.next_attempt_at;
      claimed_at = none;
      claimed_by = none;
      claim_token = none;
      last_error_class = some (safe_error error_class);
      updated_at = failed_at;
    }

-- `current["state"] != "processing" or current["claim_token"] != claim_token`, negated.
abbrev pub owned_by : JobRow → ℕ → Bool
owned_by current token = is_processing current.state && holds_token current.claim_token token

unfoldable pub fail_body : ℕ → ℕ → String → ℕ → Bool → Database → Result (JobRow × Database)
fail_body now job_id error_class claim_token retryable db = do
  current ← or_not_found (find_row job_key job_id db.outbox_jobs)
  require (owned_by current claim_token) invalid_job_state
  update_job job_id (record_failure current error_class retryable now) db

unfoldable pub fail_job :
    Availability → ℕ → ℕ → String → ℕ → Bool → Database → Result JobRecord × Database
unfolding fail_body
fail_job a now job_id error_class claim_token retryable db =
    as_record (engine_begin a (fail_body now job_id error_class claim_token retryable) db)

-- `complete_classification`: the columns that the `UPDATE` sets.
unfoldable pub complete : ℕ → ℕ → JobRow → JobRow
complete result_id completed_at row = record row {
  state = completed;
  completed_at = some completed_at;
  result_id = some result_id;
  claimed_at = none;
  claimed_by = none;
  claim_token = none;
  last_error_class = none;
  updated_at = completed_at;
}

unfoldable pub store_result :
    ℕ → ℕ → ℕ → ClassificationResult → ℕ → JobRow → Database → Result (JobRow × Database)
store_result now result_id job_id result claim_token current db = do
  require (owned_by current claim_token) invalid_job_state
  let saved : ClassificationRow = record {
    id = result_id;
    incident_id = current.incident_id;
    result = result;
    created_at = now;
  }
  rows ← insert_classification saved db.classifications
  update_job job_id (complete result_id now) (record db { classifications = rows })

unfoldable pub complete_body :
    ℕ → ℕ → ℕ → ClassificationResult → ℕ → Database → Result (JobRow × Database)
complete_body now result_id job_id result claim_token db = do
  current ← or_not_found (find_row job_key job_id db.outbox_jobs)
  if is_completed current.state
      then ok (current, db)
      else store_result now result_id job_id result claim_token current db

unfoldable pub complete_classification :
    Availability → ℕ → ℕ → ℕ → ClassificationResult → ℕ → Database → Result JobRecord × Database
unfolding complete_body store_result
complete_classification a now result_id job_id result claim_token db =
    as_record (engine_begin a (complete_body now result_id job_id result claim_token) db)
