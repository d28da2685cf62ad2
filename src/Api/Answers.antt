-- ===== src/Api/Answers.antt =====
-- api.py, the `except` clauses of the path operations and the responses to what a call returns.
use incident_intelligence_pl.Prelude.{String, Bool, false, Option, none, some, if◌then◌else◌}
use incident_intelligence_pl.Failure.{
  Failure, idempotency_conflict, correlation_conflict, storage_integrity_error, storage_unavailable,
  invalid_cursor, job_not_found, invalid_job_state, draft_not_found, draft_state_conflict,
}
use incident_intelligence_pl.Database.{
  Decision, approved, rejected, IngestionRecord, ClassificationRow,
}
use incident_intelligence_pl.Jobs.{JobRecord}
use incident_intelligence_pl.Approvals.{DraftRecord}
use incident_intelligence_pl.Api.{
  Handler, Response, ingestion, job, classification, draft, ◌>>◌, return, raise, increment,
  problem_response, storage_problem, draft_missing, incident_missing, job_missing,
}

abbrev pub storage_errors : Option String → Failure → Handler Response
storage_errors correlation_id storage_unavailable = return (storage_problem correlation_id)
storage_errors correlation_id failure = raise failure

abbrev pub conflict_problem : String → String → String → Handler Response
conflict_problem code detail correlation_id = do
  increment "conflict"
  return (problem_response 409 code detail (some correlation_id) false)

abbrev pub ingest_errors : String → Failure → Handler Response
ingest_errors correlation_id idempotency_conflict =
    conflict_problem "idempotency_key_reused"
      "Idempotency key is already associated with a different payload." correlation_id
ingest_errors correlation_id correlation_conflict =
    conflict_problem "correlation_id_reused"
      "Correlation ID is already associated with a different ingestion." correlation_id
ingest_errors correlation_id storage_integrity_error =
    conflict_problem "storage_identity_reused"
      "A ticket or evidence identifier is already assigned to another incident." correlation_id
ingest_errors correlation_id failure = storage_errors (some correlation_id) failure

abbrev pub list_errors : Failure → Handler Response
list_errors invalid_cursor =
    return (
      problem_response 400 "invalid_cursor" "The incident cursor is invalid or expired." none false)
list_errors failure = storage_errors none failure

abbrev pub create_job_errors : Failure → Handler Response
create_job_errors job_not_found = return incident_missing
create_job_errors failure = storage_errors none failure

abbrev pub retry_errors : Failure → Handler Response
retry_errors job_not_found = return job_missing
retry_errors invalid_job_state = return (
    problem_response 409 "job_not_failed" "Only a failed job can be retried by an admin." none
      false)
retry_errors failure = storage_errors none failure

abbrev pub decide_errors : Failure → Handler Response
decide_errors draft_not_found = return draft_missing
decide_errors draft_state_conflict = return (
    problem_response 409 "draft_already_decided"
      "The response draft already has a final operator decision." none false)
decide_errors failure = storage_errors none failure

abbrev pub webhook_errors : String → Failure → Handler Response
webhook_errors correlation_id idempotency_conflict =
    conflict_problem "idempotency_key_reused"
      "Idempotency key is already associated with a different webhook request." correlation_id
webhook_errors correlation_id failure = raise failure

abbrev pub ingested : IngestionRecord × Bool → Handler Response
ingested (made, duplicate) = do
  increment (if duplicate then "duplicate" else "accepted")
  return (record {
    status_code = if duplicate then 200 else 201;
    body = ingestion (record {
      correlation_id = made.correlation_id;
      idempotency_key = made.idempotency_key;
      status = if duplicate then "duplicate" else "accepted";
      duplicate = duplicate;
      ticket_id = made.ticket_id;
      log_count = made.log_count;
    });
  })

abbrev pub found_job : Option JobRecord → Response
found_job none = job_missing
found_job (some row) = record { status_code = 200; body = job row }

abbrev pub found_classification : Option ClassificationRow → Response
found_classification none =
    problem_response 404 "classification_not_found" "The requested classification does not exist."
      none false
found_classification (some row) = record { status_code = 200; body = classification row }

abbrev pub found_draft : Option DraftRecord → Response
found_draft none = draft_missing
found_draft (some row) = record { status_code = 200; body = draft row }

-- `metric_registry.increment(decision)`
abbrev pub decision_name : Decision → String
decision_name approved = "approved"
decision_name rejected = "rejected"

-- `request or DecisionRequest()`, and its reason
abbrev pub reason_of : Option (Option String) → Option String
reason_of none = none
reason_of (some reason) = reason
