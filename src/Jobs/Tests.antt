-- ===== src/Jobs/Tests.antt =====
-- The theorems on jobs at concrete tables: one job that waits, one that worker 1 holds, and one
-- that is completed.
use incident_intelligence_pl.Prelude.{
  ℕ, ◌*◌, ◌+◌, ◌≤◌, ◌≡◌, ◌≢◌, refl, inl, ◌⊎◌, Bool, true, false, ◌&&◌, some, none, List, [], ◌∷◌,
  arith, All, length, leb, ltb, if◌then◌else◌, filter_by, sort_by,
}
use incident_intelligence_pl.Prelude.Keyed.{find_row, update_row}
use incident_intelligence_pl.Prelude.Ordered.{In}
use incident_intelligence_pl.Failure.{ok, up, down}
use incident_intelligence_pl.Database.{
  Database, JobRow, IncidentRow, ClassificationResult, JobState, retry_pending,
  authentication_failure, empty_database,
}
use incident_intelligence_pl.Schemas.{Priority}
use incident_intelligence_pl.Jobs.{JobRecord, job_from_row, retry_delay, second}
use incident_intelligence_pl.Jobs.Repository.{
  job_key, new_job, complete, should_retry, record_failure, insert_classification, fail_job,
  complete_classification,
}
use incident_intelligence_pl.Jobs.Claiming.{
  claim, claimable, claim_jobs, bad_worker_id, claim_each, select_claimable, expire_abandoned,
}
use incident_intelligence_pl.Jobs.Tables.{IsValid}
use incident_intelligence_pl.Jobs.Histories.{
  Call, creates, claims, fails, retries, completes, elsewhere, run, run-IsValid,
}
use incident_intelligence_pl.Jobs.Leases.{claim_jobs-respects_lease}
use incident_intelligence_pl.Jobs.Completed.{run-keeps_completed}
use incident_intelligence_pl.Jobs.Batch.{IsHandedOut, claim_jobs-IsHandedOut}
use incident_intelligence_pl.Jobs.Fencing.{
  Refuses, claim_jobs-fences, complete_classification-replay,
}
use incident_intelligence_pl.Jobs.Backoff.{
  retry_delay-monotone, fail_job-outcome, failing_rounds, failing_rounds-end,
}
use incident_intelligence_pl.Jobs.Fairness.{claim_jobs-oldest_first}

abbrev incident : IncidentRow
incident = record {
  id = 7;
  correlation_id = "corr-0007";
  status = "open";
  priority = Priority.high;
  summary = "MFA lockout";
  created_at = 0;
  updated_at = 0;
}

abbrev result : ClassificationResult
result = record {
  provider = "deterministic_rules";
  category = authentication_failure;
  confidence = 95;
  cited_evidence_ids = "evt-1" ∷ [];
  reason_codes = "account_lockout" ∷ [];
  explanation = "";
  model_version = "rules-v1";
  prompt_version = "none";
  latency_ms = 30;
}

abbrev none_locked : ℕ → Bool
none_locked k = false

abbrev draws : ℕ → ℕ
draws i = 50 + i

-- Job 1 waits since 10, job 2 is held since 40, job 3 is completed.
waiting : JobRow
waiting = new_job 1 7 3 10

held : JobRow
held = claim "worker-1" 40 99 (new_job 2 7 3 20)

done : JobRow
done = complete 900 60 (claim "worker-1" 50 98 (new_job 3 7 3 30))

abbrev table : Database
table = record empty_database {
  incidents = incident ∷ [];
  outbox_jobs = waiting ∷ held ∷ done ∷ [];
}

table-IsValid : IsValid table
unfolding waiting held done new_job claim complete
table-IsValid = record { rows = ground arith; distinct = ground arith }

abbrev history : List Call
history =
    elsewhere table
    ∷ creates up 0 1 7 2
    ∷ claims up "worker-1" 10 0 draws none_locked
    ∷ fails up 5 1 "TimeoutError" 50 true
    ∷ claims up "worker-2" 10 20000000 draws none_locked
    ∷ completes down 20000001 900 1 result 50
    ∷ completes up 20000001 900 1 result 50
    ∷ retries up 20000002 1
    ∷ []

run-IsValid_example : IsValid (run history empty_database)
run-IsValid_example = run-IsValid history

abbrev handed_out : List JobRecord
handed_out = job_from_row (claim "worker-2" 100 50 waiting) ∷ []

abbrev after : Database
after = record table { outbox_jobs = claim "worker-2" 100 50 waiting ∷ held ∷ done ∷ [] }

claimed_once : claim_jobs up "worker-2" 1 100 draws none_locked table ≡ (ok handed_out, after)
unfolding claim_jobs bad_worker_id claim_each select_claimable filter_by sort_by expire_abandoned
    find_row update_row waiting held done new_job claim complete
claimed_once = refl

held_found : find_row job_key 2 table.outbox_jobs ≡ some held
unfolding find_row waiting held done new_job claim complete
held_found = refl

-- Worker 2 asks at 100: the lease on job 2 runs from 40.
claim_jobs-respects_lease_example :
    All (λ x. x.job_id ≢ 2) handed_out × (find_row job_key 2 after.outbox_jobs ≡ some held)
unfolding held new_job claim
claim_jobs-respects_lease_example =
    claim_jobs-respects_lease "worker-2" 1 100 draws none_locked table after 2 40 held handed_out
      table-IsValid held_found refl refl (omega arith) claimed_once

claim_jobs-IsHandedOut_example :
    (length handed_out ≤ 1) × All (IsHandedOut "worker-2" 100 none_locked table after) handed_out
claim_jobs-IsHandedOut_example =
    claim_jobs-IsHandedOut "worker-2" 1 100 draws none_locked table after handed_out table-IsValid
      claimed_once

claim_jobs-fences_example : Refuses 1 99 after
unfolding job_from_row waiting new_job claim
claim_jobs-fences_example =
    claim_jobs-fences "worker-2" 1 100 draws none_locked table after handed_out
      (job_from_row (claim "worker-2" 100 50 waiting)) 99 table-IsValid claimed_once (inl refl)
      (λ e. ground arith)

claim_jobs-oldest_first_example :
    ((x : JobRecord) × In x handed_out × (x.job_id ≡ waiting.id))
    ⊎ ((length handed_out ≡ 1) × All (λ x. x.next_attempt_at ≤ waiting.next_attempt_at) handed_out)
unfolding waiting new_job
claim_jobs-oldest_first_example =
    claim_jobs-oldest_first "worker-2" 1 100 draws none_locked table after handed_out waiting
      table-IsValid claimed_once (inl refl) refl refl

run-keeps_completed_example : find_row job_key 3 (run history table).outbox_jobs ≡ some done
unfolding find_row waiting held done new_job claim complete
run-keeps_completed_example = run-keeps_completed history table 3 done table-IsValid refl refl

-- Worker 1 completes job 2, and an operator replays the completion with other arguments.
abbrev completed_record : JobRecord
completed_record = job_from_row (complete 901 70 held)

abbrev settled : Database
settled = record table {
  classifications = record { id = 901; incident_id = 7; result = result; created_at = 70 } ∷ [];
  outbox_jobs = waiting ∷ complete 901 70 held ∷ done ∷ [];
}

completed_now : complete_classification up 70 901 2 result 99 table ≡ (ok completed_record, settled)
unfolding complete_classification find_row update_row insert_classification waiting held done
    new_job claim complete
completed_now = refl

complete_classification-replay_example :
    complete_classification up 80 902 2 result 1 settled ≡ (ok completed_record, settled)
complete_classification-replay_example =
    complete_classification-replay 70 901 2 result 99 table settled completed_record completed_now
      80 902 result 1

retry_delay-monotone_example :
    (retry_delay 2 ≤ retry_delay 7) × (10 * second ≤ retry_delay 2) × (retry_delay 7 ≤ 300 * second)
retry_delay-monotone_example = retry_delay-monotone 2 7 (omega arith)

abbrev failed_record : JobRecord
failed_record = job_from_row (record_failure held "TimeoutError" true 70 held)

abbrev shelved : Database
shelved = record table {
  outbox_jobs = waiting ∷ record_failure held "TimeoutError" true 70 held ∷ done ∷ [];
}

failed_now : fail_job up 70 2 "TimeoutError" 99 true table ≡ (ok failed_record, shelved)
unfolding fail_job find_row update_row waiting held done new_job claim complete record_failure
failed_now = refl

fail_job-outcome_example :
    (before after' : JobRow) × (find_row job_key 2 table.outbox_jobs ≡ some before)
    × (find_row job_key 2 shelved.outbox_jobs ≡ some after')
    × (failed_record ≡ job_from_row after')
    × (after'.attempt_count ≡ before.attempt_count)
    × (after'.claim_token ≡ none)
    × ((t : ℕ)
        → claimable t after'
          ≡ (should_retry true before && leb (70 + retry_delay before.attempt_count) t))
fail_job-outcome_example =
    fail_job-outcome 70 2 "TimeoutError" 99 true table shelved failed_record failed_now

failing_rounds-end_example :
    let r = failing_rounds "worker-1" draws draws "TimeoutError" 3 (new_job 1 7 3 0) in
    (r.attempt_count ≡ 3) × (r.state ≡ (if ltb 3 3 then retry_pending else JobState.failed))
failing_rounds-end_example =
    failing_rounds-end "worker-1" draws draws "TimeoutError" 1 7 3 0 2 (omega arith)
