-- ===== src/Jobs/Invariant.antt =====
-- What holds of every row of the job table, and that each transaction keeps it.
use incident_intelligence_pl.Prelude.{ℕ, ◌≤◌, ◌<◌, ◌≡◌, Bool, true, false, String, arith, is_some}
use incident_intelligence_pl.Database.{JobRow}
use incident_intelligence_pl.Jobs.{is_processing, is_completed, is_failed, is_waiting}
use incident_intelligence_pl.Jobs.Repository.{new_job, requeue, record_failure, complete}
use incident_intelligence_pl.Jobs.Claiming.{claimable, expire_abandoned, claim}

-- The attempts are counted up to the limit; a job that waits has one left; exactly the jobs in
-- process carry a claim, exactly the completed ones a result, and a failed one says why.
pub record WellFormed (r : JobRow) : Type 0 where
  pub capped : r.attempt_count ≤ r.max_attempts
  pub has_attempts : is_waiting r.state ≡ true → r.attempt_count < r.max_attempts
  pub attempted : is_waiting r.state ≡ false → 0 < r.attempt_count
  pub claim_time : is_some r.claimed_at ≡ is_processing r.state
  pub claim_owner : is_some r.claimed_by ≡ is_processing r.state
  pub claim_held : is_some r.claim_token ≡ is_processing r.state
  pub has_result : is_some r.result_id ≡ is_completed r.state
  pub has_end : is_some r.completed_at ≡ is_completed r.state
  pub says_why : is_failed r.state ≡ true → is_some r.last_error_class ≡ true

pub new_job-WellFormed :
    (job_id incident_id max_attempts now : ℕ)
    → 0 < max_attempts
    → WellFormed (new_job job_id incident_id max_attempts now)
unfolding new_job
new_job-WellFormed job_id incident_id max_attempts now h = ground arith

pub requeue-WellFormed :
    (r : JobRow) (now : ℕ) → WellFormed r → is_failed r.state ≡ true → WellFormed (requeue r now r)
unfolding requeue
requeue-WellFormed r now w h = ground arith

pub record_failure-WellFormed :
    (r : JobRow) (error_class : String) (retryable : Bool) (now : ℕ)
    → WellFormed r
    → is_processing r.state ≡ true
    → WellFormed (record_failure r error_class retryable now r)
unfolding record_failure
record_failure-WellFormed r error_class retryable now w h = ground arith

pub complete-WellFormed :
    (r : JobRow) (result_id now : ℕ)
    → WellFormed r
    → is_processing r.state ≡ true
    → WellFormed (complete result_id now r)
unfolding complete
complete-WellFormed r result_id now w h = ground arith

pub expire_abandoned-WellFormed :
    (now : ℕ) (r : JobRow) → WellFormed r → WellFormed (expire_abandoned now r)
unfolding expire_abandoned
expire_abandoned-WellFormed now r w = ground arith

pub claim-WellFormed :
    (worker_id : String) (now token : ℕ) (r : JobRow)
    → WellFormed r
    → claimable now r ≡ true
    → WellFormed (claim worker_id now token r)
unfolding claim
claim-WellFormed worker_id now token r w h = ground arith
