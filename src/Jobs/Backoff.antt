-- ===== src/Jobs/Backoff.antt =====
-- Retries: the backoff, what a failure is turned into, and that retrying ends.
use native.Mathlib.Decide.{dec_lt}
use native.Mathlib.Nat.{pow-suc}
use incident_intelligence_pl.Prelude.{
  ℕ, zero, suc, ◌+◌, ◌*◌, ◌^◌, ◌-◌, min, max, ◌≤◌, ◌<◌, ◌≡◌, refl, ◌∙◌, Bool, true, ◌&&◌, String,
  some, none, arith, ltb, leb, if◌then◌else◌,
}
use incident_intelligence_pl.Prelude.Keyed
use incident_intelligence_pl.Prelude.Keyed.{find_row}
use incident_intelligence_pl.Failure.{ok, up}
use incident_intelligence_pl.Database.{JobState, Database, JobRow, retry_pending}
use incident_intelligence_pl.Jobs.{JobRecord, job_from_row, retry_delay, second}
use incident_intelligence_pl.Jobs.Repository.{
  job_key, new_job, should_retry, record_failure, fail_body, fail_job,
}
use incident_intelligence_pl.Jobs.Claiming.{claimable, claim}
use incident_intelligence_pl.Jobs.Outcomes.{fail_body-ok, as_record-ok, record_failure-KeepsId}

-- The seconds before the cap are applied to an exponent.
capped : ℕ → ℕ
capped k = min 300 (10 * 2 ^ k) * second

capped-suc : (k : ℕ) → capped k ≤ capped (suc k)
unfolding capped
capped-suc k = omega (arith, pow-suc 2 k)

retry_delay-capped : (n : ℕ) → retry_delay n ≡ capped (min 5 (n - 1))
unfolding retry_delay capped
retry_delay-capped n = let e : max 0 (n - 1) ≡ n - 1 = omega arith in rw e

retry_delay-suc : (n : ℕ) → retry_delay n ≤ retry_delay (suc n)
retry_delay-suc zero = unfold retry_delay in omega arith
retry_delay-suc (suc k) = elim (dec_lt k 5) [
  | yes h ↦
      let low : min 5 (suc k - 1) ≡ k = omega arith in
      let high : min 5 (suc (suc k) - 1) ≡ suc k = omega arith in
      rw (retry_delay-capped (suc k), retry_delay-capped (suc (suc k)), low, high) (capped-suc k)
  | no h ↦
      let low : min 5 (suc k - 1) ≡ 5 = omega arith in
      let high : min 5 (suc (suc k) - 1) ≡ 5 = omega arith in
      rw (retry_delay-capped (suc k), retry_delay-capped (suc (suc k)), low, high) (omega arith)
]

retry_delay-add : (m d : ℕ) → retry_delay m ≤ retry_delay (d + m)
retry_delay-add m zero = let e : zero + m ≡ m = omega arith in rw e (omega arith)
retry_delay-add m (suc d) =
    let e : suc d + m ≡ suc (d + m) = omega arith in
    rw e (omega (arith, retry_delay-add m d, retry_delay-suc (d + m)))

retry_delay-le : (n : ℕ) → retry_delay n ≤ 300 * second
unfolding retry_delay
retry_delay-le n = omega arith

-- The delay never falls with the attempts, and lies between 10 seconds and 5 minutes.
pub retry_delay-monotone :
    (m n : ℕ)
    → m ≤ n
    → (retry_delay m ≤ retry_delay n)
      × (10 * second ≤ retry_delay m)
      × (retry_delay n ≤ 300 * second)
retry_delay-monotone m n h =
    let up_to : n - m + m ≡ n = omega arith in
    let from_zero : m + 0 ≡ m = omega arith in
    let least : retry_delay 0 ≡ 10 * second = unfold retry_delay in refl in
    (
      rw up_to at (retry_delay-add m (n - m)),
      omega (arith, least, rw from_zero at (retry_delay-add 0 m)),
      retry_delay-le n,
    )

-- The owner's report of a failure is recorded: if the error is retryable and an attempt is left,
-- the job waits and falls due exactly when its backoff is over; otherwise it has failed and is
-- never due. Either way the claim is given up, and the attempts stay as they were.
pub fail_job-outcome :
    (now job_id : ℕ) (error_class : String) (token : ℕ) (retryable : Bool) (db db' : Database)
    (x : JobRecord)
    → fail_job up now job_id error_class token retryable db ≡ (ok x, db')
    → (before after : JobRow) × (find_row job_key job_id db.outbox_jobs ≡ some before)
      × (find_row job_key job_id db'.outbox_jobs ≡ some after)
      × (x ≡ job_from_row after)
      × (after.attempt_count ≡ before.attempt_count)
      × (after.claim_token ≡ none)
      × ((t : ℕ)
          → claimable t after
            ≡ (should_retry retryable before && leb (now + retry_delay before.attempt_count) t))
unfolding fail_job
fail_job-outcome now job_id error_class token retryable db db' x h =
    let (row, ran, made) =
      as_record-ok (fail_body now job_id error_class token retryable) db db' h in
    let (current, found, owned, same, stored) =
      fail_body-ok now job_id error_class token retryable db db' ran in
    (
      current,
      row,
      found,
      rw (stored, same)
          (Keyed.find_row-update_row_self job_key job_id
            (record_failure current error_class retryable now) db.outbox_jobs current
            (record_failure-KeepsId current error_class retryable now) found),
      made,
      rw same (unfold record_failure in refl),
      rw same (unfold record_failure in refl),
      λ t. rw same (due_after current t),
    )
  where
    due_after :
        (r : JobRow) (t : ℕ)
        → claimable t (record_failure r error_class retryable now r)
          ≡ (should_retry retryable r && leb (now + retry_delay r.attempt_count) t)
    due_after r t = unfold record_failure in ground arith

-- A worker's round: it claims the job and reports a retryable failure.
unfoldable pub failing_round : String → ℕ → ℕ → String → JobRow → JobRow
unfolding claim record_failure
failing_round worker_id now token error_class r =
    let held = claim worker_id now token r in record_failure held error_class true now held

unfoldable pub failing_rounds : String → (ℕ → ℕ) → (ℕ → ℕ) → String → ℕ → JobRow → JobRow
failing_rounds worker_id now uuid4 error_class zero r = r
failing_rounds worker_id now uuid4 error_class (suc n) r =
    failing_round worker_id (now n) (uuid4 n) error_class
      (failing_rounds worker_id now uuid4 error_class n r)

failing_round-attempts :
    (worker_id : String) (now token : ℕ) (error_class : String) (r : JobRow)
    → let r' = failing_round worker_id now token error_class r in
      (r'.attempt_count ≡ r.attempt_count + 1)
      × (r'.max_attempts ≡ r.max_attempts)
      × (r'.state
          ≡ (if ltb (r.attempt_count + 1) r.max_attempts then retry_pending else JobState.failed))
unfolding failing_round
failing_round-attempts worker_id now token error_class r = ground arith

failing_rounds-attempts :
    (worker_id : String) (now uuid4 : ℕ → ℕ) (error_class : String) (n : ℕ) (r : JobRow)
    → let r' = failing_rounds worker_id now uuid4 error_class n r in
      (r'.attempt_count ≡ r.attempt_count + n) × (r'.max_attempts ≡ r.max_attempts)
unfolding failing_rounds
failing_rounds-attempts worker_id now uuid4 error_class zero r = (omega arith, refl)
failing_rounds-attempts worker_id now uuid4 error_class (suc n) r =
    let before = failing_rounds worker_id now uuid4 error_class n r in
    let (attempts, limit, state) =
      failing_round-attempts worker_id (now n) (uuid4 n) error_class before in
    let (attempts', limit') = failing_rounds-attempts worker_id now uuid4 error_class n r in
    (omega arith, limit ∙ limit')

-- Retrying ends: a new job with `m` attempts that fails in a retryable way each time it is claimed
-- waits again after each of the first `m - 1` rounds, and has failed after the `m`-th.
pub failing_rounds-end :
    (worker_id : String) (now uuid4 : ℕ → ℕ) (error_class : String) (job_id incident_id m at n : ℕ)
    → n < m
    → let r =
        failing_rounds worker_id now uuid4 error_class (suc n) (new_job job_id incident_id m at) in
      (r.attempt_count ≡ suc n)
      × (r.state ≡ (if ltb (suc n) m then retry_pending else JobState.failed))
failing_rounds-end worker_id now uuid4 error_class job_id incident_id m at n h =
    let fresh = new_job job_id incident_id m at in
    let before = failing_rounds worker_id now uuid4 error_class n fresh in
    let (attempts', limit') = failing_rounds-attempts worker_id now uuid4 error_class n fresh in
    let (attempts, limit, state) =
      failing_round-attempts worker_id (now n) (uuid4 n) error_class before in
    unfold new_job failing_rounds in ground (arith, attempts', limit', attempts, limit, state)
