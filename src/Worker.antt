-- ===== src/Worker.antt =====
-- worker.py: one round of the classification worker. The classifier is any function that returns
-- or raises. A turn at a job says whether the database answers in each of the three calls, when
-- they happen, and the identifier that a result gets.
pub mod Verdict
pub mod Outcome
pub mod Frame
pub mod Passes
pub mod Rounds
pub mod Polling
mod Tests
use incident_intelligence_pl.Prelude.{
  ℕ, zero, suc, ◌+◌, String, Bool, true, false, Option, none, some, List, [], ◌∷◌, map, length,
  if◌then◌else◌,
}
use incident_intelligence_pl.Failure.{
  Failure, invalid_job_state, retryable_job_error, storage_unavailable, value_error, other_error,
  class_name, Result, ok, err, ◌>>=◌, Availability,
}
use incident_intelligence_pl.Database.{Database, ClassificationResult, JobState, retry_pending}
use incident_intelligence_pl.Schemas.{EventBundle}
use incident_intelligence_pl.Schemas.Validation.{valid_bundle}
use incident_intelligence_pl.Incidents.{IncidentDetail, get_incident}
use incident_intelligence_pl.Jobs.{JobRecord}
use incident_intelligence_pl.Jobs.Repository.{complete_classification, fail_job}
use incident_intelligence_pl.Jobs.Claiming.{claim_jobs}

-- The worker's counters of the metrics registry.
pub record Counters : Type 0 where
  pub retried : ℕ
  pub failed : ℕ

pub record Turn : Type 0 where
  pub reads : Availability
  pub writes : Availability
  pub reports : Availability
  pub completed_at : ℕ
  pub failed_at : ℕ
  pub result_id : ℕ

-- `_bundle_from_detail`; pydantic validates the bundle once more.
unfoldable pub bundle_of : IncidentDetail → EventBundle
bundle_of incident = record {
  correlation_id = incident.overview.correlation_id;
  ticket = record {
    ticket_id = incident.ticket.ticket_id;
    subject = incident.ticket.subject;
    description = incident.ticket.description;
    priority = incident.ticket.priority;
    source = incident.ticket.source;
    requester_role = incident.ticket.requester_role;
    created_at = incident.ticket.created_at;
    tags = incident.ticket.tags;
  };
  logs =
      map
        (λ evidence. record {
          event_id = evidence.event_id;
          observed_at = evidence.observed_at;
          service = evidence.service;
          severity = evidence.severity;
          message = evidence.message;
          synthetic_user_id = evidence.synthetic_user_id;
          attributes = evidence.attributes;
        })
        incident.evidence;
}

unfoldable pub bundle_from_detail : IncidentDetail → Result EventBundle
bundle_from_detail incident =
    if valid_bundle (bundle_of incident)
    then ok (bundle_of incident)
    else err (other_error "ValidationError")

abbrev pub or_value_error : Option IncidentDetail → Result IncidentDetail
or_value_error none = err value_error
or_value_error (some incident) = ok incident

abbrev pub is_invalid_job_state : Failure → Bool
is_invalid_job_state invalid_job_state = true
is_invalid_job_state _ = false

-- `isinstance(error, (RetryableJobError, StorageUnavailable))`
abbrev pub is_retryable : Failure → Bool
is_retryable retryable_job_error = true
is_retryable storage_unavailable = true
is_retryable _ = false

-- `metrics.increment("retried" if failed_job.state == "retry_pending" else "failed")`
unfoldable pub count_failure : JobState → Option Counters → Option Counters
count_failure state none = none
count_failure retry_pending (some m) = some (record m { retried = m.retried + 1 })
count_failure _ (some m) = some (record m { failed = m.failed + 1 })

abbrev pub State : Type 0
State = Database × Option Counters

module _ (collated : String → String → Bool)
    (classifier : EventBundle → Result ClassificationResult) where
  -- The part of the `try` block before the result is stored.
  unfoldable pub classify_job : Availability → ℕ → Database → Result ClassificationResult
  classify_job reads incident_id db = do
    found ← get_incident collated reads incident_id db
    incident ← or_value_error found
    bundle ← bundle_from_detail incident
    classifier bundle

  -- The handler of any other exception.
  abbrev pub reported : Option Counters → Result JobRecord × Database → Result (Unit {0}) × State
  reported m (ok failed_job, db) = (ok tt, (db, count_failure failed_job.state m))
  reported m (err e, db) = (if is_invalid_job_state e then ok tt else err e, (db, m))

  unfoldable pub report_error : Turn → ℕ → ℕ → Failure → State → Result (Unit {0}) × State
  report_error t job_id claim_token e (db, m) =
      if is_invalid_job_state e
      then (ok tt, (db, m))
      else reported m
          (fail_job t.reports t.failed_at job_id (class_name e) claim_token (is_retryable e) db)

  abbrev pub handled :
      Turn → ℕ → ℕ → Option Counters → Result JobRecord × Database → Result (Unit {0}) × State
  handled t job_id claim_token m (ok x, db) = (ok tt, (db, m))
  handled t job_id claim_token m (err e, db) = report_error t job_id claim_token e (db, m)

  -- One pass of the loop for a job with a claim token.
  unfoldable pub store_or_report :
      Turn → ℕ → ℕ → Result ClassificationResult → State → Result (Unit {0}) × State
  store_or_report t job_id claim_token (err e) (db, m) = report_error t job_id claim_token e (db, m)
  store_or_report t job_id claim_token (ok result) (db, m) =
      handled t job_id claim_token m
        (complete_classification t.writes t.completed_at t.result_id job_id result claim_token db)

  unfoldable pub work_on : Turn → JobRecord → Option ℕ → State → Result (Unit {0}) × State
  work_on t job none (db, m) = (ok tt, (db, m))
  work_on t job (some claim_token) (db, m) =
      store_or_report t job.job_id claim_token (classify_job t.reads job.incident_id db) (db, m)

  -- An exception that a pass lets through ends the loop.
  abbrev pub continue :
      Result (Unit {0}) × State → (State → Result (Unit {0}) × State) → Result (Unit {0}) × State
  continue (ok done, s) rest = rest s
  continue (err e, s) rest = (err e, s)

  unfoldable pub work_through : (ℕ → Turn) → ℕ → List JobRecord → State → Result (Unit {0}) × State
  work_through turns i [] s = (ok tt, s)
  work_through turns i (job ∷ jobs) s =
      continue (work_on (turns i) job job.claim_token s) (λ s'. work_through turns (suc i) jobs s')

  abbrev pub worked :
      (ℕ → Turn) → Option Counters → Result (List JobRecord) × Database → Result ℕ × State
  worked turns m (err e, db) = (err e, (db, m))
  worked turns m (ok claimed, db) =
      let (r, s) = work_through turns 0 claimed (db, m) in (r >>= λ done. ok (length claimed), s)

  unfoldable pub run_once :
      Availability → String → ℕ → ℕ → (ℕ → ℕ) → (ℕ → Bool) → (ℕ → Turn) → State → Result ℕ × State
  run_once a worker_id batch_size now uuid4 locked turns (db, m) =
      worked turns m (claim_jobs a worker_id batch_size now uuid4 locked db)
