-- ===== src/Approvals.antt =====
-- approvals.py and postgres_approvals.py: response drafts and the one decision that each can get.
pub mod Invariant
pub mod Histories
pub mod Decisions
mod Tests
use incident_intelligence_pl.Prelude.{
  ℕ, String, Bool, true, false, not, ◌||◌, Option, none, some, List, [], ◌∷◌, any, ◌==◌,
  if◌then◌else◌, is_some,
}
use incident_intelligence_pl.Prelude.Keyed.{find_row, update_row}
use incident_intelligence_pl.Failure.{
  Failure, Result, ok, err, ◌>>=◌, ◌>>◌, require, draft_not_found, draft_state_conflict,
  storage_unavailable, integrity_error, sqlalchemy_error, Availability, engine_begin,
  engine_connect, rethrow, hide_sql,
}
use incident_intelligence_pl.Database.{
  Database, DraftRow, DraftStatus, pending_review, Decision, DecisionRow, OperatorRole, viewer,
}
use incident_intelligence_pl.Auth.{OperatorClaims}
use incident_intelligence_pl.Jobs.Repository.{incident_key, one}

pub record ApprovalDecisionRecord : Type 0 where
  pub decision_id : ℕ
  pub draft_id : ℕ
  pub decision : Decision
  pub operator_id : String
  pub operator_role : OperatorRole
  pub reason : Option String
  pub created_at : ℕ

pub record DraftRecord : Type 0 where
  pub draft_id : ℕ
  pub incident_id : ℕ
  pub content : String
  pub status : DraftStatus
  pub created_by : String
  pub created_at : ℕ
  pub updated_at : ℕ
  pub decision : Option ApprovalDecisionRecord

abbrev pub draft_key : DraftRow → ℕ
draft_key r = r.id

-- A decision is looked up by its draft, which the unique constraint makes a key.
abbrev pub decided_draft : DecisionRow → ℕ
decided_draft r = r.draft_id

-- The value of `decision` as a status.
abbrev pub status_of : Decision → DraftStatus
status_of Decision.approved = DraftStatus.approved
status_of Decision.rejected = DraftStatus.rejected

abbrev pub is_pending : DraftStatus → Bool
is_pending pending_review = true
is_pending _ = false

-- `_draft_from_row`
unfoldable pub decision_from_row : Option DecisionRow → Option ApprovalDecisionRecord
decision_from_row none = none
decision_from_row (some row) = some (record {
  decision_id = row.id;
  draft_id = row.draft_id;
  decision = row.decision;
  operator_id = row.operator_id;
  operator_role = row.operator_role;
  reason = row.reason;
  created_at = row.created_at;
})

unfoldable pub draft_from_row : DraftRow → Option DecisionRow → DraftRecord
unfolding decision_from_row
draft_from_row row decision_row = record {
  draft_id = row.id;
  incident_id = row.incident_id;
  content = row.content;
  status = row.status;
  created_by = row.created_by;
  created_at = row.created_at;
  updated_at = row.updated_at;
  decision = decision_from_row decision_row;
}

unfoldable pub new_draft : ℕ → ℕ → ℕ → String → String → DraftRow
new_draft now draft_id incident_id content created_by = record {
  id = draft_id;
  incident_id = incident_id;
  content = content;
  status = pending_review;
  created_by = created_by;
  created_at = now;
  updated_at = now;
}

-- The `INSERT` under the primary key and the foreign key of the incident.
unfoldable pub insert_draft : DraftRow → Database → Result Database
insert_draft r db =
    if is_some (find_row draft_key r.id db.response_drafts)
    then err (integrity_error "pk_response_drafts")
    else if is_some (find_row incident_key r.incident_id db.incidents)
    then ok (record db { response_drafts = r ∷ db.response_drafts })
    else err (integrity_error "fk_response_drafts_incident_id")

unfoldable pub create_draft_body :
    ℕ → ℕ → ℕ → String → String → Database → Result (DraftRecord × Database)
unfolding new_draft insert_draft
create_draft_body now draft_id incident_id content created_by db = do
  let row = new_draft now draft_id incident_id content created_by
  db' ← insert_draft row db
  ok (draft_from_row row none, db')

abbrev pub hidden {ℓ} : {A : Type ℓ} → Result A × Database → Result A × Database
hidden (r, db) = (rethrow hide_sql r, db)

unfoldable pub create_draft :
    Availability → ℕ → ℕ → ℕ → String → String → Database → Result DraftRecord × Database
unfolding create_draft_body
create_draft a now draft_id incident_id content created_by db =
    hidden (engine_begin a (create_draft_body now draft_id incident_id content created_by) db)

-- The outer join of a draft with its decision.
unfoldable pub joined : Option DraftRow → Database → Option DraftRecord
joined none db = none
joined (some row) db =
    some (draft_from_row row (find_row decided_draft row.id db.approval_decisions))

unfoldable pub get_draft : Availability → ℕ → Database → Result (Option DraftRecord)
unfolding joined
get_draft a draft_id db =
    rethrow hide_sql
      (engine_connect a (λ d. ok (joined (find_row draft_key draft_id d.response_drafts) d)) db)

-- `operator_role IN ('operator', 'admin')`
abbrev pub may_decide : OperatorRole → Bool
may_decide viewer = false
may_decide _ = true

unfoldable pub decision_row : ℕ → ℕ → ℕ → Decision → OperatorClaims → Option String → DecisionRow
decision_row now decision_id draft_id decision operator reason = record {
  id = decision_id;
  draft_id = draft_id;
  decision = decision;
  operator_id = operator.operator_id;
  operator_role = operator.role;
  reason = reason;
  created_at = now;
}

-- The `INSERT` under the check, the primary key and the unique constraint on the draft.
unfoldable pub insert_decision : DecisionRow → List DecisionRow → Result (List DecisionRow)
insert_decision r rows =
    if not (may_decide r.operator_role)
    then err (integrity_error "ck_approval_decisions_operator_role")
    else if any (λ s. s.id == r.id) rows
    then err (integrity_error "pk_approval_decisions")
    else if is_some (find_row decided_draft r.draft_id rows)
    then err (integrity_error "uq_approval_decisions_draft_id")
    else ok (r ∷ rows)

unfoldable pub set_status : DraftStatus → ℕ → DraftRow → DraftRow
set_status status updated_at row = record row { status = status; updated_at = updated_at }

abbrev pub or_no_draft : Option DraftRow → Result DraftRow
or_no_draft none = err draft_not_found
or_no_draft (some r) = ok r

unfoldable pub decide_body :
    ℕ
    → ℕ
    → ℕ
    → Decision
    → OperatorClaims
    → Option String
    → Database
    → Result (DraftRecord × Database)
unfolding decision_row insert_decision
decide_body now decision_id draft_id decision operator reason db = do
  current ← or_no_draft (find_row draft_key draft_id db.response_drafts)
  require (is_pending current.status) draft_state_conflict
  let made = decision_row now decision_id draft_id decision operator reason
  decisions ← insert_decision made db.approval_decisions
  let drafts =
      update_row draft_key draft_id (set_status (status_of decision) made.created_at)
        db.response_drafts
  row ← one (find_row draft_key draft_id drafts)
  ok (
    draft_from_row row (some made),
    record db { approval_decisions = decisions; response_drafts = drafts },
  )

-- The `except` clauses of `decide`.
abbrev pub decide_failure : Failure → Failure
decide_failure (integrity_error name) = draft_state_conflict
decide_failure sqlalchemy_error = storage_unavailable
decide_failure e = e

unfoldable pub decide :
    Availability
    → ℕ
    → ℕ
    → ℕ
    → Decision
    → OperatorClaims
    → Option String
    → Database
    → Result DraftRecord × Database
unfolding decide_body
decide a now decision_id draft_id decision operator reason db =
    let (r, db') =
      engine_begin a (decide_body now decision_id draft_id decision operator reason) db in
    (rethrow decide_failure r, db')
