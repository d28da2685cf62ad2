-- ===== src/Api.antt =====
-- api.py: the responses, the state behind a request, and how a handler runs. FastAPI's
-- parsing and validation of a request comes before, and so does its rendering of a response after. A
-- handler returns a response or raises, and keeps what it changed when it raises.
pub mod Authentication
pub mod Answers
pub mod Handlers
pub mod Routes
pub mod Credentials
pub mod Access
pub mod Answered
pub mod Stores
pub mod Total
mod Tests
use incident_intelligence_pl.Prelude.{
  ℕ, ◌&&◌, ◌||◌, ◌⊎◌, inl, inr, String, Bool, true, false, Option, none, some, List, [], ◌∷◌,
  length, codes, leb, ◌==◌, starts_with, if◌then◌else◌,
}
use incident_intelligence_pl.Failure.{Failure, invalid_token, Result, ok, err, Availability}
use incident_intelligence_pl.Database.{Database, OperatorRole, IngestionRecord, ClassificationRow}
use incident_intelligence_pl.Schemas.{ℤ, pos}
use incident_intelligence_pl.Auth.{OperatorClaims, authorize}
use incident_intelligence_pl.Auth.Tokens.{TokenLibrary, Moment, aware, verify_token}
use incident_intelligence_pl.Incidents.{IncidentDetail}
use incident_intelligence_pl.Incidents.Paging.{CursorLibrary, IncidentPage}
use incident_intelligence_pl.Jobs.{JobRecord}
use incident_intelligence_pl.Approvals.{DraftRecord}
use incident_intelligence_pl.Ingestion.{Hashing, InMemoryIngestionStore}
use incident_intelligence_pl.Observability
use incident_intelligence_pl.Observability.{Floats, MetricsRegistry, MetricsSnapshot}
use incident_intelligence_pl.Runbooks.{RunbookDraft}
use incident_intelligence_pl.Services.{IncidentService}
use incident_intelligence_pl.Webhooks.{
  WebhookDeliveryRecord, InMemoryWebhookDeliveryStore, RequestHashing,
}

pub record HealthResponse : Type 0 where
  pub service : String
  pub status : String
  pub version : String

pub data Readiness : Type 0 where
  ready not_ready : Readiness

pub record ReadinessResponse : Type 0 where
  pub service : String
  pub status : Readiness

pub record IngestionResponse : Type 0 where
  pub correlation_id : String
  pub idempotency_key : String
  pub status : String
  pub duplicate : Bool
  pub ticket_id : String
  pub log_count : ℕ

pub record ProblemDetail : Type 0 where
  pub code : String
  pub detail : String
  pub correlation_id : Option String
  pub retryable : Bool

pub data Body : Type 0 where
  problem : ProblemDetail → Body
  health : HealthResponse → Body
  readiness : ReadinessResponse → Body
  metrics : MetricsSnapshot → Body
  ingestion : IngestionResponse → Body
  page : IncidentPage → Body
  incident : IncidentDetail → Body
  job : JobRecord → Body
  classification : ClassificationRow → Body
  draft : DraftRecord → Body
  runbook : RunbookDraft → Body
  delivery : WebhookDeliveryRecord → Body

pub record Response : Type 0 where
  pub status_code : ℕ
  pub body : Body

-- What `create_app` holds on to, and what a request finds: the libraries, the time and identifiers
-- within the service, the identifier of a delivery, and whether PostgreSQL stores the bundles.
pub record App : Type 1 where
  pub token_secret : Option String
  pub service : IncidentService
  pub stores_in_postgres : Bool
  pub version : String
  pub delivery_hex : String
  pub tokens : TokenLibrary
  pub cursors : CursorLibrary
  pub floats : Floats
  pub hashing : Hashing
  pub request_hashing : RequestHashing

-- A line of the request log, less the method, the path and the latency.
pub record LogLine : Type 0 where
  pub request_id : String
  pub correlation_id : Option String
  pub status_code : ℕ

pub record ApiState : Type 0 where
  pub db : Database
  pub ingestions : InMemoryIngestionStore
  pub deliveries : InMemoryWebhookDeliveryStore
  pub registry : MetricsRegistry
  pub request_log : List LogLine

abbrev pub Handler {ℓ} : Type ℓ → Type ℓ
Handler A = ApiState → Result A × ApiState

infixl 5 ◌>>=◌ ◌>>◌
abbrev pub continue {ℓ κ} :
    {A : Type ℓ} {B : Type κ} → Result A × ApiState → (A → Handler B) → Result B × ApiState
continue (err failure, s) rest = (err failure, s)
continue (ok x, s) rest = rest x s

abbrev pub ◌>>=◌ {ℓ κ} : {A : Type ℓ} {B : Type κ} → Handler A → (A → Handler B) → Handler B
(call >>= rest) s = continue (call s) rest

abbrev pub ◌>>◌ {κ} : {B : Type κ} → Handler (Unit {0}) → Handler B → Handler B
(call >> rest) s = continue (call s) (λ done. rest)

abbrev pub return {ℓ} : {A : Type ℓ} → A → Handler A
return x s = (ok x, s)

abbrev pub raise {ℓ} : {A : Type ℓ} → Failure → Handler A
raise failure s = (err failure, s)

-- `try: … except`: what the clauses do with an exception; one without a clause is raised again.
abbrev pub caught {ℓ} :
    {A : Type ℓ}
    → Result A × ApiState
    → (Failure → Handler Response)
    → (A → Handler Response)
    → Result Response × ApiState
caught (err failure, s) clauses rest = clauses failure s
caught (ok x, s) clauses rest = rest x s

abbrev pub try_except {ℓ} :
    {A : Type ℓ}
    → Handler A
    → (Failure → Handler Response)
    → (A → Handler Response)
    → Handler Response
try_except call clauses rest s = caught (call s) clauses rest

abbrev pub reading {ℓ} : {A : Type ℓ} → (Database → Result A) → Handler A
reading call s = (call s.db, s)

abbrev pub written {ℓ} : {A : Type ℓ} → Result A × Database → ApiState → Result A × ApiState
written (r, db) s = (r, record s { db = db })

abbrev pub writing {ℓ} : {A : Type ℓ} → (Database → Result A × Database) → Handler A
writing call s = written (call s.db) s

abbrev pub counted : Result (Unit {0}) × MetricsRegistry → Handler (Unit {0})
counted (r, registry) s = (r, record s { registry = registry })

-- `metric_registry.increment(operation)`
unfoldable pub increment : String → Handler (Unit {0})
increment operation s = counted (Observability.increment operation (pos 1) s.registry) s

-- `_problem_response`
abbrev pub problem_response : ℕ → String → String → Option String → Bool → Response
problem_response status_code code detail correlation_id retryable = record {
  status_code = status_code;
  body = problem (record {
    code = code;
    detail = detail;
    correlation_id = correlation_id;
    retryable = retryable;
  });
}

-- `_storage_unavailable`, and the same response written out, with the bundle's correlation.
abbrev pub storage_problem : Option String → Response
storage_problem correlation_id =
    problem_response 503 "storage_unavailable"
      "The configured incident store is temporarily unavailable." correlation_id true

abbrev pub approval_unavailable : Response
approval_unavailable =
    problem_response 503 "approval_store_unavailable"
      "Durable approvals require the PostgreSQL storage backend." none false

abbrev pub draft_missing : Response
draft_missing =
    problem_response 404 "draft_not_found" "The requested response draft does not exist." none false

abbrev pub incident_missing : Response
incident_missing =
    problem_response 404 "incident_not_found" "The requested incident does not exist." none false

abbrev pub job_missing : Response
job_missing = problem_response 404 "job_not_found" "The requested job does not exist." none false

abbrev pub job_store_unavailable : Response
job_store_unavailable =
    problem_response 503 "job_store_unavailable"
      "Durable jobs require the PostgreSQL storage backend." none false

abbrev pub insufficient_role : Response
insufficient_role =
    problem_response 403 "insufficient_role"
      "The operator role is not permitted to perform this action." none false
