-- ===== src/Jobs/Fencing.antt =====
-- Who may finish a job: the claim token fences off a worker whose lease was taken over, and a
-- completion can be replayed.
use incident_intelligence_pl.Prelude.{
  ℕ, ◌≡◌, ◌≢◌, refl, sym, ◌∙◌, ap, Bool, true, false, String, Option, some, none, List, inl, inr,
  Bool-cases, ◌==◌, ==_iff,
}
use incident_intelligence_pl.Prelude.Keyed
use incident_intelligence_pl.Prelude.Keyed.{find_row}
use incident_intelligence_pl.Prelude.Ordered.{In, All-In}
use incident_intelligence_pl.Failure.{ok, err, invalid_job_state, up}
use incident_intelligence_pl.Database.{Database, JobRow, ClassificationResult, processing}
use incident_intelligence_pl.Jobs.{JobRecord, job_from_row, is_completed, holds_token}
use incident_intelligence_pl.Jobs.Repository.{
  job_key, complete, owned_by, complete_body, fail_job, complete_classification,
}
use incident_intelligence_pl.Jobs.Claiming.{claim_jobs}
use incident_intelligence_pl.Jobs.Outcomes.{complete-KeepsId, complete_body-ok, as_record-ok}
use incident_intelligence_pl.Jobs.Tables.{IsValid}
use incident_intelligence_pl.Jobs.Batch.{IsHandedOut, claim_jobs-IsHandedOut}

holds_token-ne : (held : Option ℕ) (token : ℕ) → held ≢ some token → holds_token held token ≡ false
holds_token-ne none token h = refl
holds_token-ne (some t) token h = elim (Bool-cases (t == token)) [
  | inl e ↦ absurd (h (ap some ((==_iff t token).0 e)))
  | inr e ↦ e
]

-- What either way of finishing a job answers to a caller that does not own it.
abbrev pub Refuses : ℕ → ℕ → Database → Type 0
Refuses job_id token db =
    (now result_id : ℕ) (error_class : String) (retryable : Bool) (result : ClassificationResult)
    → (fail_job up now job_id error_class token retryable db ≡ (err invalid_job_state, db))
      × (complete_classification up now result_id job_id result token db
          ≡ (err invalid_job_state, db))

not_owned-Refuses :
    (job_id token : ℕ) (db : Database) (r : JobRow)
    → find_row job_key job_id db.outbox_jobs ≡ some r
    → owned_by r token ≡ false
    → is_completed r.state ≡ false
    → Refuses job_id token db
unfolding fail_job complete_classification
not_owned-Refuses job_id token db r found foreign open' now result_id error_class retryable result =
    (rw (found, foreign), rw (found, open', foreign))

-- After a successful `claim_jobs`, whoever presents another token than the one handed out can
-- neither fail nor complete the job: the call is refused and the database is unchanged.
pub claim_jobs-fences :
    (worker_id : String) (limit now : ℕ) (uuid4 : ℕ → ℕ) (locked : ℕ → Bool) (db db' : Database)
    (records : List JobRecord) (x : JobRecord) (stale : ℕ)
    → IsValid db
    → claim_jobs up worker_id limit now uuid4 locked db ≡ (ok records, db')
    → In x records
    → x.claim_token ≢ some stale
    → Refuses x.job_id stale db'
unfolding job_from_row
claim_jobs-fences worker_id limit now uuid4 locked db db' records x stale v h here ne =
    let out : IsHandedOut worker_id now locked db db' x =
      All-In (IsHandedOut worker_id now locked db db') x records
        (claim_jobs-IsHandedOut worker_id limit now uuid4 locked db db' records v h).1 here in
    let held : x.claim_token ≡ out.after.claim_token = ap (λ y. y.claim_token) out.record_lem in
    let busy : out.after.state ≡ processing = sym (ap (λ y. y.state) out.record_lem) ∙ out.state in
    let foreign : holds_token out.after.claim_token stale ≡ false =
      holds_token-ne out.after.claim_token stale (λ e. ne (held ∙ e)) in
    not_owned-Refuses x.job_id stale db' out.after out.stored (rw (busy, foreign)) (rw busy)

-- After a completion the job's row is completed, and the answer is that row.
pub completed_row :
    (now result_id job_id : ℕ) (result : ClassificationResult) (token : ℕ) (db db' : Database)
    (x : JobRecord)
    → complete_classification up now result_id job_id result token db ≡ (ok x, db')
    → (row : JobRow) × (find_row job_key job_id db'.outbox_jobs ≡ some row)
      × (is_completed row.state ≡ true)
      × (x ≡ job_from_row row)
unfolding complete_classification
completed_row now result_id job_id result token db db' x h =
    let (row, ran, made) =
      as_record-ok (complete_body now result_id job_id result token) db db' h in
    let (current, found, cases) = complete_body-ok now result_id job_id result token db db' ran in
    elim cases [
      | inl (done, same, kept) ↦ (row, rw (kept, same) found, rw same done, made)
      | inr (owned, same, fresh, stored) ↦ (
        row,
        rw (stored, same)
            (Keyed.find_row-update_row_self job_key job_id (complete result_id now) db.outbox_jobs
              current (complete-KeepsId result_id now) found),
        rw same (unfold complete in refl),
        made,
      )
    ]

-- A completion can be repeated, with the same or any other result, identifier and token: the
-- answer is the same record, and the database is unchanged.
pub complete_classification-replay :
    (now result_id job_id : ℕ) (result : ClassificationResult) (token : ℕ) (db db' : Database)
    (x : JobRecord)
    → complete_classification up now result_id job_id result token db ≡ (ok x, db')
    → (now' result_id' : ℕ) (result' : ClassificationResult) (token' : ℕ)
    → complete_classification up now' result_id' job_id result' token' db' ≡ (ok x, db')
unfolding complete_classification
complete_classification-replay now result_id job_id result token db db' x h now' result_id' result'
      token' =
    let (row, found, done, made) = completed_row now result_id job_id result token db db' x h in
    rw (found, done, made)
