-- ===== src/Jobs.antt =====
-- jobs.py: a job's record, the tests on its state, and the backoff. The transactions of
-- `PostgresJobRepository` (postgres.py) are in the modules below, with what is proved of them.
pub mod Repository
pub mod Claiming
pub mod Invariant
pub mod Outcomes
pub mod ClaimLoop
pub mod Tables
pub mod Claims
pub mod Leases
pub mod Histories
pub mod Completed
pub mod Batch
pub mod Fencing
pub mod Backoff
pub mod Fairness
mod Tests
use incident_intelligence_pl.Prelude.{
  ℕ, ◌+◌, ◌-◌, ◌*◌, ◌^◌, min, max, Bool, true, false, ◌&&◌, ◌||◌, String, Option, none, some, leb,
  ltb, ◌==◌,
}
use incident_intelligence_pl.Database.{
  JobState, pending, processing, retry_pending, completed, failed, JobRow,
}

pub record JobRecord : Type 0 where
  pub job_id : ℕ
  pub incident_id : ℕ
  pub job_type : String
  pub state : JobState
  pub attempt_count : ℕ
  pub max_attempts : ℕ
  pub next_attempt_at : ℕ
  pub claimed_at : Option ℕ
  pub claimed_by : Option String
  pub claim_token : Option ℕ
  pub completed_at : Option ℕ
  pub result_id : Option ℕ
  pub last_error_class : Option String
  pub created_at : ℕ
  pub updated_at : ℕ

-- `PostgresJobRepository._job_from_row`
unfoldable pub job_from_row : JobRow → JobRecord
job_from_row row = record {
  job_id = row.id;
  incident_id = row.incident_id;
  job_type = row.job_type;
  state = row.state;
  attempt_count = row.attempt_count;
  max_attempts = row.max_attempts;
  next_attempt_at = row.next_attempt_at;
  claimed_at = row.claimed_at;
  claimed_by = row.claimed_by;
  claim_token = row.claim_token;
  completed_at = row.completed_at;
  result_id = row.result_id;
  last_error_class = row.last_error_class;
  created_at = row.created_at;
  updated_at = row.updated_at;
}

-- One second, and `JOB_CLAIM_LEASE`, in microseconds.
abbrev pub second : ℕ
second = 1000000

abbrev pub job_claim_lease : ℕ
job_claim_lease = 300000000

-- `min(300, 10 * (2 ** min(5, max(0, attempt_count - 1))))` seconds; `attempt_count - 1` stops at 0,
-- as `max(0, …)` makes it do.
unfoldable pub retry_delay : ℕ → ℕ
retry_delay attempt_count = min 300 (10 * 2 ^ min 5 (max 0 (attempt_count - 1))) * second

-- `state == "…"`
abbrev pub is_processing : JobState → Bool
is_processing processing = true
is_processing _ = false

abbrev pub is_completed : JobState → Bool
is_completed completed = true
is_completed _ = false

abbrev pub is_failed : JobState → Bool
is_failed failed = true
is_failed _ = false

-- `state.in_(("pending", "retry_pending"))`
abbrev pub is_waiting : JobState → Bool
is_waiting pending = true
is_waiting retry_pending = true
is_waiting _ = false

-- `claim_token == token`, where the column may be null.
abbrev pub holds_token : Option ℕ → ℕ → Bool
holds_token none token = false
holds_token (some t) token = t == token

-- `claimed_at <= now - JOB_CLAIM_LEASE`, where the column may be null; the lease is added on the
-- other side, since a difference of natural numbers would stop at 0.
abbrev pub lease_expired : Option ℕ → ℕ → Bool
lease_expired none now = false
lease_expired (some t) now = leb (t + job_claim_lease) now
