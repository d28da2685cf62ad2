-- ===== src/Jobs/Claiming.antt =====
-- postgres.py, `PostgresJobRepository.claim_jobs`: expired leases without attempts left are failed,
-- then the due jobs, the longest due first, are taken over by the worker.
use incident_intelligence_pl.Prelude.{
  ℕ, suc, ◌+◌, Bool, not, ◌&&◌, ◌||◌, String, none, some, List, [], ◌∷◌, map, leb, ltb, ◌==◌,
  if◌then◌else◌, take, length, codes, str_eq, filter_by, sort_by,
}
use incident_intelligence_pl.Prelude.Keyed.{find_row, update_row}
use incident_intelligence_pl.Failure.{
  value_error, Result, ok, err, ◌>>=◌, Availability, engine_begin, rethrow, hide_sql,
}
use incident_intelligence_pl.Database.{Database, JobRow, processing, failed}
use incident_intelligence_pl.Jobs.{
  JobRecord, job_from_row, is_processing, is_waiting, lease_expired,
}
use incident_intelligence_pl.Jobs.Repository.{job_key, one}

-- The first `UPDATE`: a lease has expired and no attempt is left.
abbrev pub abandoned : ℕ → JobRow → Bool
abandoned now r =
    is_processing r.state && lease_expired r.claimed_at now && leb r.max_attempts r.attempt_count

unfoldable pub expire : ℕ → JobRow → JobRow
expire now r = record r {
  state = failed;
  claimed_at = none;
  claimed_by = none;
  claim_token = none;
  last_error_class = some "WorkerLeaseExpired";
  updated_at = now;
}

unfoldable pub expire_abandoned : ℕ → JobRow → JobRow
unfolding expire
expire_abandoned now r = if abandoned now r then expire now r else r

-- The `WHERE` of the `SELECT`.
abbrev pub claimable : ℕ → JobRow → Bool
claimable now r =
    is_waiting r.state && leb r.next_attempt_at now
    || is_processing r.state && lease_expired r.claimed_at now && ltb r.attempt_count r.max_attempts

-- `ORDER BY next_attempt_at, created_at`
abbrev pub due_before : JobRow → JobRow → Bool
due_before r s =
    ltb r.next_attempt_at s.next_attempt_at
    || r.next_attempt_at == s.next_attempt_at && leb r.created_at s.created_at

-- `… LIMIT limit FOR UPDATE SKIP LOCKED`: rows that another transaction has locked do not count.
unfoldable pub select_claimable : ℕ → ℕ → (ℕ → Bool) → List JobRow → List JobRow
select_claimable now limit locked jobs =
    take limit
      (filter_by (λ r. not (locked r.id)) (sort_by due_before (filter_by (claimable now) jobs)))

-- The columns that the second `UPDATE` sets.
unfoldable pub claim : String → ℕ → ℕ → JobRow → JobRow
claim worker_id now token r = record r {
  state = processing;
  attempt_count = r.attempt_count + 1;
  claimed_at = some now;
  claimed_by = some worker_id;
  claim_token = some token;
  updated_at = now;
}

-- The loop over `job_ids`; `i` counts the identifiers drawn.
unfoldable pub claim_each :
    String → ℕ → (ℕ → ℕ) → ℕ → List ℕ → List JobRow → Result (List JobRow × List JobRow)
claim_each worker_id now uuid4 i [] jobs = ok ([], jobs)
claim_each worker_id now uuid4 i (job_id ∷ job_ids) jobs = do
  let jobs' = update_row job_key job_id (claim worker_id now (uuid4 i)) jobs
  row ← one (find_row job_key job_id jobs')
  (rows, final) ← claim_each worker_id now uuid4 (suc i) job_ids jobs'
  ok (row ∷ rows, final)

unfoldable pub claim_body :
    String → ℕ → ℕ → (ℕ → ℕ) → (ℕ → Bool) → Database → Result (List JobRow × Database)
claim_body worker_id limit now uuid4 locked db = do
  let jobs = map (expire_abandoned now) db.outbox_jobs
  let job_ids = map job_key (select_claimable now limit locked jobs)
  (rows, final) ← claim_each worker_id now uuid4 0 job_ids jobs
  ok (rows, record db { outbox_jobs = final })

unfoldable pub bad_worker_id : String → Bool
bad_worker_id worker_id = str_eq worker_id "" || ltb 80 (length (codes worker_id))

abbrev pub bad_limit : ℕ → Bool
bad_limit limit = not (leb 1 limit && leb limit 100)

abbrev pub as_records : Result (List JobRow) × Database → Result (List JobRecord) × Database
as_records (r, db) = (rethrow hide_sql r >>= (λ rows. ok (map job_from_row rows)), db)

unfoldable pub claim_jobs :
    Availability
    → String
    → ℕ
    → ℕ
    → (ℕ → ℕ)
    → (ℕ → Bool)
    → Database
    → Result (List JobRecord) × Database
unfolding claim_body
claim_jobs a worker_id limit now uuid4 locked db =
    if bad_worker_id worker_id || bad_limit limit
    then (err value_error, db)
    else as_records (engine_begin a (claim_body worker_id limit now uuid4 locked) db)
