-- ===== src/Services/Transactions.antt =====
-- The exceptions that the transactions behind the service can raise, each named by a hypothesis.
use incident_intelligence_pl.Prelude.{
  ℕ, String, Bool, true, false, Option, none, some, List, is_some, if◌then◌else◌, any, not, ◌==◌,
}
use incident_intelligence_pl.Prelude.Keyed.{find_row, update_row}
use incident_intelligence_pl.Failure.{
  Failure, job_not_found, invalid_job_state, draft_not_found, draft_state_conflict, integrity_error,
  sqlalchemy_error, Result, ok, err, require, hide_sql,
}
use incident_intelligence_pl.Failure.Raised.{Raises, bind-Raises, then-Raises, require-Raises}
use incident_intelligence_pl.Database.{Database, Decision, JobRow, DraftRow, DecisionRow}
use incident_intelligence_pl.Auth.{OperatorClaims}
use incident_intelligence_pl.Jobs.{is_failed}
use incident_intelligence_pl.Jobs.Repository
use incident_intelligence_pl.Jobs.Repository.{
  one, or_not_found, insert_job, create_job_body, retry_body, update_job, as_record,
}
use incident_intelligence_pl.Approvals
use incident_intelligence_pl.Approvals.{
  DraftRecord, insert_draft, create_draft_body, hidden, insert_decision, decide_body,
  decide_failure, or_no_draft,
}
use incident_intelligence_pl.Services.{IncidentService, after}

-- The lemmas of one step each, for a predicate `P` on what is raised outside the transaction.
module _ (P : Failure → Type 0) where
  pub not_found-Raises : {A : Type 0} (o : Option A) → P job_not_found → Raises P (or_not_found o)
  not_found-Raises none p = p
  not_found-Raises (some x) p = tt

  pub one-Raises : {A : Type 0} (o : Option A) → P sqlalchemy_error → Raises P (one o)
  one-Raises none p = p
  one-Raises (some x) p = tt

  pub no_draft-Raises : (o : Option DraftRow) → P draft_not_found → Raises P (or_no_draft o)
  no_draft-Raises none p = p
  no_draft-Raises (some x) p = tt

  pub if-Raises :
      {A : Type 0} (b : Bool) (r q : Result A)
      → Raises P r
      → Raises P q
      → Raises P (if b then r else q)
  if-Raises true r q p p' = p
  if-Raises false r q p p' = p'

  pub after-Raises :
      {A B : Type 0} (s : IncidentService) (actor : OperatorClaims) (r : Result A)
      (write : A → Database → Result B × Database) (db : Database)
      → Raises P r
      → ((x : A) → Raises P (write x db).0)
      → Raises P (after s actor r write db).0
  after-Raises s actor (err f) write db p q = p
  after-Raises s actor (ok x) write db p q = q x

  pub as_record-Raises :
      (out : Result JobRow × Database)
      → Raises (λ f. P (hide_sql f)) out.0
      → Raises P (as_record out).0
  as_record-Raises (err f, db) p = p
  as_record-Raises (ok x, db) p = tt

  pub hidden-Raises :
      {A : Type 0} (out : Result A × Database)
      → Raises (λ f. P (hide_sql f)) out.0
      → Raises P (hidden out).0
  hidden-Raises (err f, db) p = p
  hidden-Raises (ok x, db) p = tt

module _ (Q : Failure → Type 0) (db : Database) where
  pub insert_job-Raises :
      (r : JobRow)
      → ((name : String) → Q (integrity_error name))
      → Raises Q (insert_job r db.outbox_jobs)
  unfolding insert_job
  insert_job-Raises r clash =
      if-Raises Q (is_some (find_row Repository.job_key r.id db.outbox_jobs)) _ _ (clash _) tt

  pub create_job_body-Raises :
      (now id incident_id max_attempts : ℕ)
      → Q job_not_found
      → ((name : String) → Q (integrity_error name))
      → Raises Q (create_job_body now id incident_id max_attempts db)
  unfolding create_job_body
  create_job_body-Raises now id incident_id max_attempts unknown clash =
      bind-Raises Q (or_not_found (find_row Repository.incident_key incident_id db.incidents)) _
        (not_found-Raises Q (find_row Repository.incident_key incident_id db.incidents) unknown)
        (λ exists.
          bind-Raises Q
            (insert_job (Repository.new_job id incident_id max_attempts now) db.outbox_jobs) _
            (insert_job-Raises (Repository.new_job id incident_id max_attempts now) clash)
            (λ jobs. tt))

  pub update_job-Raises :
      (id : ℕ) (change : JobRow → JobRow) → Q sqlalchemy_error → Raises Q (update_job id change db)
  update_job-Raises id change sql =
      bind-Raises Q
        (one
          (find_row Repository.job_key id (update_row Repository.job_key id change db.outbox_jobs)))
        _
        (one-Raises Q
          (find_row Repository.job_key id (update_row Repository.job_key id change db.outbox_jobs))
          sql)
        (λ row. tt)

  pub retry_body-Raises :
      (now id : ℕ)
      → Q job_not_found
      → Q invalid_job_state
      → Q sqlalchemy_error
      → Raises Q (retry_body now id db)
  unfolding retry_body
  retry_body-Raises now id unknown state sql =
      bind-Raises Q (or_not_found (find_row Repository.job_key id db.outbox_jobs)) _
        (not_found-Raises Q (find_row Repository.job_key id db.outbox_jobs) unknown)
        (λ current.
          then-Raises Q (require (is_failed current.state) invalid_job_state) _
            (require-Raises Q (is_failed current.state) invalid_job_state state)
            (update_job-Raises id (Repository.requeue current now) sql))

  pub insert_draft-Raises :
      (r : DraftRow) → ((name : String) → Q (integrity_error name)) → Raises Q (insert_draft r db)
  unfolding insert_draft
  insert_draft-Raises r clash =
      if-Raises Q (is_some (find_row Approvals.draft_key r.id db.response_drafts)) _ _ (clash _) (
        if-Raises Q (is_some (find_row Repository.incident_key r.incident_id db.incidents)) _ _ tt
          (clash _))

  pub create_draft_body-Raises :
      (now id incident_id : ℕ) (content created_by : String)
      → ((name : String) → Q (integrity_error name))
      → Raises Q (create_draft_body now id incident_id content created_by db)
  unfolding create_draft_body
  create_draft_body-Raises now id incident_id content created_by clash =
      bind-Raises Q (insert_draft (Approvals.new_draft now id incident_id content created_by) db) _
        (insert_draft-Raises (Approvals.new_draft now id incident_id content created_by) clash)
        (λ db'. tt)

  pub insert_decision-Raises :
      (r : DecisionRow) (rows : List DecisionRow)
      → ((name : String) → Q (integrity_error name))
      → Raises Q (insert_decision r rows)
  unfolding insert_decision
  insert_decision-Raises r rows clash =
      if-Raises Q (not (Approvals.may_decide r.operator_role)) _ _ (clash _) (
        if-Raises Q (any (λ s. s.id == r.id) rows) _ _ (clash _) (
          if-Raises Q (is_some (find_row Approvals.decided_draft r.draft_id rows)) _ _ (clash _)
            tt))

  pub decide_body-Raises :
      (now decision_id id : ℕ) (decision : Decision) (actor : OperatorClaims)
      (reason : Option String)
      → Q draft_not_found
      → Q draft_state_conflict
      → ((name : String) → Q (integrity_error name))
      → Q sqlalchemy_error
      → Raises Q (decide_body now decision_id id decision actor reason db)
  unfolding decide_body
  decide_body-Raises now decision_id id decision actor reason missing conflict clash sql =
      bind-Raises Q (or_no_draft (find_row Approvals.draft_key id db.response_drafts)) _
        (no_draft-Raises Q (find_row Approvals.draft_key id db.response_drafts) missing)
        (λ current.
          then-Raises Q (require (Approvals.is_pending current.status) draft_state_conflict) _
            (require-Raises Q (Approvals.is_pending current.status) draft_state_conflict conflict)
            (bind-Raises Q
              (insert_decision (Approvals.decision_row now decision_id id decision actor reason)
                db.approval_decisions)
              _
              (insert_decision-Raises
                (Approvals.decision_row now decision_id id decision actor reason)
                db.approval_decisions clash)
              (λ decisions.
                bind-Raises Q
                  (one (
                    find_row Approvals.draft_key id (
                      update_row Approvals.draft_key id
                        (Approvals.set_status (Approvals.status_of decision) now)
                        db.response_drafts)))
                  _
                  (one-Raises Q
                    (find_row Approvals.draft_key id (
                      update_row Approvals.draft_key id
                        (Approvals.set_status (Approvals.status_of decision) now)
                        db.response_drafts))
                    sql)
                  (λ row. tt))))
