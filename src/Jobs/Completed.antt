-- ===== src/Jobs/Completed.antt =====
-- A completed job is never touched again.
use incident_intelligence_pl.Prelude.{
  ℕ, ◌≡◌, sym, ◌∙◌, ap, ◌≢◌, true, false, some, List, [], ◌∷◌, arith, inl, inr, Bool-cases, ltb,
}
use incident_intelligence_pl.Prelude.Keyed
use incident_intelligence_pl.Prelude.Keyed.{find_row}
use incident_intelligence_pl.Failure.{Availability, engine_begin-keeps}
use incident_intelligence_pl.Database.{Database, JobRow}
use incident_intelligence_pl.Jobs.{is_completed}
use incident_intelligence_pl.Jobs.Repository.{
  job_key, new_job, requeue, record_failure, complete, create_job_body, retry_body, fail_body,
  complete_body, create_classification_job, retry_job, fail_job, complete_classification,
}
use incident_intelligence_pl.Jobs.Outcomes.{
  KeepsId, with_job, requeue-KeepsId, record_failure-KeepsId, complete-KeepsId, create_job_body-ok,
  retry_body-ok, fail_body-ok, complete_body-ok,
}
use incident_intelligence_pl.Jobs.Tables.{IsValid}
use incident_intelligence_pl.Jobs.Leases.{find_row-claim_jobs, finished-IsPassed}
use incident_intelligence_pl.Jobs.Histories.{
  Call, creates, retries, claims, fails, completes, elsewhere, apply, run, apply-IsValid,
}

-- The row of a completed job, looked up by its identifier.
abbrev pub HasCompleted : ℕ → JobRow → Database → Type 0
HasCompleted job_id r db =
    (find_row job_key job_id db.outbox_jobs ≡ some r) × (is_completed r.state ≡ true)

-- An update of a job that is not completed does not reach a completed one.
with_job-keeps :
    (j job_id : ℕ) (change : JobRow → JobRow) (db : Database) (r current : JobRow)
    → HasCompleted j r db
    → KeepsId change
    → find_row job_key job_id db.outbox_jobs ≡ some current
    → is_completed current.state ≡ false
    → find_row job_key j (with_job job_id change db).outbox_jobs ≡ some r
with_job-keeps j job_id change db r current (found, done) keep here open' =
    Keyed.find_row-update_row_ne job_key j job_id change db.outbox_jobs keep (λ e. clash e) ∙ found
  where
    clash : j ≡ job_id → ⊥
    clash e =
        let same : r ≡ current =
          ground (arith, sym found ∙ ap (λ k. find_row job_key k db.outbox_jobs) e ∙ here) in
        ground (arith, ap (λ (x : JobRow). is_completed x.state) same)

create-keeps :
    (a : Availability) (now job_id incident_id max_attempts : ℕ) (db : Database) (j : ℕ)
    (r : JobRow)
    → find_row job_key j db.outbox_jobs ≡ some r
    → find_row job_key j
        (create_classification_job a now job_id incident_id max_attempts db).1.outbox_jobs
      ≡ some r
unfolding create_classification_job
create-keeps a now job_id incident_id max_attempts db j r found =
    elim (Bool-cases (ltb max_attempts 1)) [
      | inl e ↦ rw e found
      | inr e ↦ rw e (
          engine_begin-keeps (λ d. find_row job_key j d.outbox_jobs ≡ some r) a
            (create_job_body now job_id incident_id max_attempts) db found
            (λ row db' h.
              let (made, fresh, stored) =
                create_job_body-ok now job_id incident_id max_attempts db db' h in
              let ne : job_id ≢ j =
                λ e. cc (fresh, found, ap (λ k. find_row job_key k db.outbox_jobs) e) in
              rw stored (rw (made, new_job) (unfold find_row in ground arith))))
    ]

apply-keeps_completed :
    (c : Call) (db : Database) (j : ℕ) (r : JobRow)
    → IsValid db
    → HasCompleted j r db
    → find_row job_key j (apply c db).outbox_jobs ≡ some r
unfolding apply
apply-keeps_completed (creates a now job_id incident_id max_attempts) db j r v h =
    create-keeps a now job_id incident_id max_attempts db j r h.0
apply-keeps_completed (retries a now job_id) db j r v h =
    unfold retry_job in
    engine_begin-keeps (λ d. find_row job_key j d.outbox_jobs ≡ some r) a (retry_body now job_id) db
      h.0
      (λ row db' e.
        let (current, found, dead, made, stored) = retry_body-ok now job_id db db' e in
        rw stored (
          with_job-keeps j job_id (requeue current now) db r current h (requeue-KeepsId current now)
            found (ground arith)))
apply-keeps_completed (claims a worker_id limit now uuid4 locked) db j r v h =
    find_row-claim_jobs a worker_id limit now uuid4 locked db j r v h.0
      (finished-IsPassed now r (inl h.1))
apply-keeps_completed (fails a now job_id error_class claim_token retryable) db j r v h =
    unfold fail_job in
    engine_begin-keeps (λ d. find_row job_key j d.outbox_jobs ≡ some r) a
      (fail_body now job_id error_class claim_token retryable) db h.0
      (λ row db' e.
        let (current, found, owned, made, stored) =
          fail_body-ok now job_id error_class claim_token retryable db db' e in
        rw stored (
          with_job-keeps j job_id (record_failure current error_class retryable now) db r current h
            (record_failure-KeepsId current error_class retryable now) found (ground arith)))
apply-keeps_completed (completes a now result_id job_id result claim_token) db j r v h =
    unfold complete_classification in
    engine_begin-keeps (λ d. find_row job_key j d.outbox_jobs ≡ some r) a
      (complete_body now result_id job_id result claim_token) db h.0
      (λ row db' e.
        let (current, found, cases) =
          complete_body-ok now result_id job_id result claim_token db db' e in
        elim cases [
          | inl (done, made, stored) ↦ rw stored h.0
          | inr (owned, made, fresh, stored) ↦ rw stored (
              with_job-keeps j job_id (complete result_id now) db r current h
                (complete-KeepsId result_id now) found (ground arith))
        ])
apply-keeps_completed (elsewhere other) db j r v h = h.0

-- Completion is final: from any valid state, whatever calls follow, the row of a completed job
-- never changes again, so neither its result nor its time of completion is ever replaced.
pub run-keeps_completed :
    (calls : List Call) (db : Database) (job_id : ℕ) (r : JobRow)
    → IsValid db
    → find_row job_key job_id db.outbox_jobs ≡ some r
    → is_completed r.state ≡ true
    → find_row job_key job_id (run calls db).outbox_jobs ≡ some r
unfolding run
run-keeps_completed [] db job_id r v found done = found
run-keeps_completed (c ∷ cs) db job_id r v found done =
    run-keeps_completed cs (apply c db) job_id r (apply-IsValid c db v)
      (apply-keeps_completed c db job_id r v (found, done)) done
