-- ===== src/Database.antt =====
-- db.py: the tables of the PostgreSQL schema, as lists of rows, and the literal types that the
-- columns hold (jobs.py, approvals.py, classification.py, auth.py). A UUID is its number, an instant
-- is in microseconds, and a confidence or a latency is in hundredths or microseconds.
use incident_intelligence_pl.Prelude.{ℕ, String, List, [], Option}
use incident_intelligence_pl.Schemas.{Attributes, Priority, TicketSource, LogSeverity}

-- `JobState` of jobs.py, and the check constraint of the column.
pub data JobState : Type 0 where
  pending processing retry_pending completed failed : JobState

-- `DraftStatus` of approvals.py
pub data DraftStatus : Type 0 where
  pending_review approved rejected : DraftStatus

-- `Decision` of approvals.py
pub data Decision : Type 0 where
  approved rejected : Decision

-- `ClassificationCategory` of classification.py
pub data ClassificationCategory : Type 0 where
  authentication_failure network_connectivity endpoint_health uncategorized : ClassificationCategory

-- `OperatorRole` of auth.py
pub data OperatorRole : Type 0 where
  viewer operator admin : OperatorRole

-- `IngestionRecord` of ingestion.py, which is also what a receipt's `response_summary` stores.
pub record IngestionRecord : Type 0 where
  pub idempotency_key : String
  pub correlation_id : String
  pub ticket_id : String
  pub log_count : ℕ

pub record ReceiptRow : Type 0 where
  pub idempotency_key : String
  pub payload_hash : String
  pub correlation_id : String
  pub response_summary : IngestionRecord
  pub created_at : ℕ

pub record IncidentRow : Type 0 where
  pub id : ℕ
  pub correlation_id : String
  pub status : String
  pub priority : Priority
  pub summary : String
  pub created_at : ℕ
  pub updated_at : ℕ

pub record TicketRow : Type 0 where
  pub ticket_id : String
  pub incident_id : ℕ
  pub subject : String
  pub description : String
  pub priority : Priority
  pub source : TicketSource
  pub requester_role : String
  pub created_at : ℕ
  pub tags : List String

pub record EvidenceRow : Type 0 where
  pub event_id : String
  pub incident_id : ℕ
  pub observed_at : ℕ
  pub service : String
  pub severity : LogSeverity
  pub message : String
  pub synthetic_user_id : String
  pub attributes : Attributes

-- `ClassificationResult` of classification.py
pub record ClassificationResult : Type 0 where
  pub provider : String
  pub category : ClassificationCategory
  pub confidence : ℕ  -- hundredths
  pub cited_evidence_ids : List String
  pub reason_codes : List String
  pub explanation : String
  pub model_version : String
  pub prompt_version : String
  pub latency_ms : ℕ  -- microseconds

pub record ClassificationRow : Type 0 where
  pub id : ℕ
  pub incident_id : ℕ
  pub result : ClassificationResult
  pub created_at : ℕ

pub record JobRow : Type 0 where
  pub id : ℕ
  pub incident_id : ℕ
  pub job_type : String
  pub payload : Attributes
  pub state : JobState
  pub attempt_count : ℕ
  pub max_attempts : ℕ
  pub next_attempt_at : ℕ
  pub claimed_at : Option ℕ
  pub claimed_by : Option String
  pub claim_token : Option ℕ
  pub completed_at : Option ℕ
  pub result_id : Option ℕ
  pub last_error_class : Option String
  pub created_at : ℕ
  pub updated_at : ℕ

pub record DraftRow : Type 0 where
  pub id : ℕ
  pub incident_id : ℕ
  pub content : String
  pub status : DraftStatus
  pub created_by : String
  pub created_at : ℕ
  pub updated_at : ℕ

pub record DecisionRow : Type 0 where
  pub id : ℕ
  pub draft_id : ℕ
  pub decision : Decision
  pub operator_id : String
  pub operator_role : OperatorRole
  pub reason : Option String
  pub created_at : ℕ

pub record Database : Type 0 where
  pub event_ingestions : List ReceiptRow
  pub incidents : List IncidentRow
  pub support_tickets : List TicketRow
  pub evidence_events : List EvidenceRow
  pub classifications : List ClassificationRow
  pub outbox_jobs : List JobRow
  pub response_drafts : List DraftRow
  pub approval_decisions : List DecisionRow

abbrev pub empty_database : Database
empty_database = record {
  event_ingestions = [];
  incidents = [];
  support_tickets = [];
  evidence_events = [];
  classifications = [];
  outbox_jobs = [];
  response_drafts = [];
  approval_decisions = [];
}
