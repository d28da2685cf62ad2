-- ===== src/Worker/Tests.antt =====
-- A round of the worker over two jobs that wait, and a pass over a job that it holds.
use incident_intelligence_pl.Prelude.{
  All, ◌+◌, ◌≢◌, filter_by, sort_by, map, List, ◌++◌, min, max, ◌*◌, ◌^◌, length, ℕ, ◌≡◌, refl,
  String, Bool, false, Option, some, [], ◌∷◌, str_eq, arith,
}
use incident_intelligence_pl.Prelude.Keyed.{find_row, update_row}
use incident_intelligence_pl.Failure.{Failure, err, Result, ok, up, down, storage_unavailable}
use incident_intelligence_pl.Database.{Database, JobRow, ClassificationResult, empty_database}
use incident_intelligence_pl.Schemas.{EventBundle}
use incident_intelligence_pl.Classification.{classify}
use incident_intelligence_pl.Jobs.{job_from_row}
use incident_intelligence_pl.Jobs.Repository.{job_key, classification_key, new_job}
use incident_intelligence_pl.Jobs.Claiming.{
  claim, claim_jobs, bad_worker_id, claim_each, select_claimable, expire_abandoned,
}
use incident_intelligence_pl.Jobs.Tables.{IsValid}
use incident_intelligence_pl.Worker.{Turn, Counters, classify_job, work_on, run_once}
use incident_intelligence_pl.Worker.Verdict.{attempted, settled_row, saved, settled_counters}
use incident_intelligence_pl.Worker.Outcome.{work_on-settles}
use incident_intelligence_pl.Worker.Polling.{
  poll_loop, run_forever, IsPaced, run_forever-IsPaced, poll_loop-backoff,
}
use incident_intelligence_pl.Worker.Passes.{IsHeld, IsUsable, AllSettled, counted_all}
use incident_intelligence_pl.Worker.Rounds.{run_once-settles}

abbrev collated : String → String → Bool
collated a b = str_eq a b

abbrev rules : EventBundle → Result ClassificationResult
rules bundle = ok (classify 30 bundle)

abbrev turn : Turn
turn = record {
  reads = up;
  writes = up;
  reports = up;
  completed_at = 60;
  failed_at = 70;
  result_id = 900;
}

abbrev flaky : ℕ → Turn
flaky i = record turn { reads = down; result_id = 900 + i }

held : JobRow
held = claim "worker-1" 40 99 (new_job 2 7 3 20)

abbrev table : Database
table = record empty_database { outbox_jobs = held ∷ [] }

abbrev counters : Option Counters
counters = some (record { retried = 0; failed = 0 })

-- Two jobs that wait.
abbrev waiting : Database
waiting = record empty_database { outbox_jobs = new_job 4 7 3 20 ∷ new_job 5 8 2 30 ∷ [] }

waiting-IsValid : IsValid waiting
unfolding new_job
waiting-IsValid = record { rows = ground arith; distinct = ground arith }

abbrev draws : ℕ → ℕ
draws i = 50 + i

abbrev taken : List JobRow
taken = claim "worker-1" 40 50 (new_job 4 7 3 20) ∷ claim "worker-1" 40 51 (new_job 5 8 2 30) ∷ []

abbrev claimed : Database
claimed = record empty_database { outbox_jobs = taken }

claims_two :
    claim_jobs up "worker-1" 10 40 draws (λ k. false) waiting
    ≡ (ok (map job_from_row taken), claimed)
unfolding claim_jobs bad_worker_id claim_each select_claimable filter_by sort_by expire_abandoned
    find_row update_row new_job claim
claims_two = refl

flaky-IsUsable : IsUsable flaky 0 waiting
unfolding find_row
flaky-IsUsable = record {
  reports = λ j. refl;
  fresh = λ j le. refl;
  apart = λ j k ne e. ne (omega (arith, e));
}

-- The database cannot be read at either turn.
run_once-settles_example :
    let (answer, state) =
      run_once collated rules up "worker-1" 10 40 draws (λ k. false) flaky (waiting, counters) in
    (answer ≡ ok 2)
    × ((rows : List JobRow) × (map job_from_row taken ≡ map job_from_row rows)
        × All (IsHeld claimed) rows
        × AllSettled collated rules flaky claimed state.0 0 rows
        × (state.1 ≡ counted_all collated rules flaky claimed 0 rows counters)
        × ((j : ℕ)
            → All (λ r. r.id ≢ j) rows
            → find_row job_key j state.0.outbox_jobs ≡ find_row job_key j claimed.outbox_jobs))
run_once-settles_example =
    run_once-settles collated rules "worker-1" 10 40 draws (λ k. false) flaky waiting claimed
      counters (map job_from_row taken) waiting-IsValid flaky-IsUsable claims_two

-- The incident is gone: the failure is recorded.
work_on-settles_example :
    let r = attempted up (classify_job collated rules up 7 table) in
    let (answer, state) =
      work_on collated rules turn (job_from_row held) (some 99) (table, counters) in
    (answer ≡ ok tt)
    × (find_row job_key 2 state.0.outbox_jobs ≡ some (settled_row turn r held))
    × (find_row classification_key 900 state.0.classifications ≡ saved turn r held)
    × (state.1 ≡ settled_counters r held counters)
unfolding held claim new_job job_from_row find_row
work_on-settles_example =
    work_on-settles collated rules turn (job_from_row held) 99 table counters held refl refl refl
      refl

abbrev rounds : List (Result ℕ)
rounds = ok 3 ∷ err storage_unavailable ∷ ok 0 ∷ []

run_forever-IsPaced_example :
    let waits = poll_loop 500 rounds 0 in
    (run_forever 500 rounds ≡ ok waits) × All (IsPaced 500) waits
run_forever-IsPaced_example = run_forever-IsPaced 500 rounds (omega arith) (omega arith)

abbrev failures : List Failure
failures = storage_unavailable ∷ storage_unavailable ∷ []

poll_loop-backoff_example :
    poll_loop 500 (map err failures ++ (err storage_unavailable ∷ [])) 0
    ≡ poll_loop 500 (map err failures) 0
      ++ ((err storage_unavailable, min 60000 (max 1000 500 * 2 ^ min 6 (length failures))) ∷ [])
poll_loop-backoff_example = poll_loop-backoff 500 failures storage_unavailable
