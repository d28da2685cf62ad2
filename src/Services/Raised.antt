-- ===== src/Services/Raised.antt =====
-- The exceptions that the calls of the service can raise, each named by a hypothesis.
use incident_intelligence_pl.Prelude.{
  ℕ, ◌≡◌, String, Bool, true, ◌&&◌, Option, none, some, List, [], ◌∷◌, leb, filter_by, ◌==◌,
}
use incident_intelligence_pl.Failure.{
  Failure, permission_error, incident_not_found, job_not_found, invalid_job_state, invalid_cursor,
  draft_not_found, draft_state_conflict, storage_unavailable, Result, require, hide_sql,
  engine_begin,
}
use incident_intelligence_pl.Failure.Raised.{
  Raises, bind-Raises, then-Raises, require-Raises, rethrow-Raises, begin-Raises, connect-Raises,
}
use incident_intelligence_pl.Database.{
  Database, Decision, OperatorRole, viewer, operator, admin, IncidentRow,
}
use incident_intelligence_pl.Auth.{OperatorClaims, authorize}
use incident_intelligence_pl.Auth.Tokens.{or_raise}
use incident_intelligence_pl.Incidents.{detail_of, exactly_one, get_incident, IncidentDetail}
use incident_intelligence_pl.Incidents.Paging.{
  CursorLibrary, decode_incident_cursor, position_of, list_incidents,
}
use incident_intelligence_pl.Jobs.Repository
use incident_intelligence_pl.Jobs.Repository.{
  one, or_not_found, insert_job, create_job_body, retry_body, update_job, as_record,
}
use incident_intelligence_pl.Approvals
use incident_intelligence_pl.Approvals.{
  DraftRecord, insert_draft, create_draft_body, hidden, insert_decision, decide_body,
  decide_failure, or_no_draft,
}
use incident_intelligence_pl.Services.{
  IncidentService, require_role, or_no_incident, read_incidents, read_incident, read_job,
  read_classification, read_draft, create_job, retry_failed_job, decide_draft, draft_response,
  build_response_draft,
}
use incident_intelligence_pl.Services.Transactions.{
  after-Raises, as_record-Raises, hidden-Raises, create_job_body-Raises, retry_body-Raises,
  create_draft_body-Raises, decide_body-Raises,
}

module _ (P : Failure → Type 0) (storage : P storage_unavailable) where
  module _ (role : P permission_error) (s : IncidentService) (actor : OperatorClaims)
      (db : Database) where
    role-Raises : (minimum_role : OperatorRole) → Raises P (require_role actor minimum_role)
    unfolding require_role
    role-Raises minimum_role = require-Raises P (authorize actor minimum_role) permission_error role

    pub read_job-Raises : (job_id : ℕ) → Raises P (read_job s actor job_id db)
    unfolding read_job Repository.get_job
    read_job-Raises job_id = then-Raises P (require_role actor viewer) _ (role-Raises viewer) (
        then-Raises P (require s.jobs storage_unavailable) _
          (require-Raises P s.jobs storage_unavailable storage)
          (rethrow-Raises P hide_sql _
            (connect-Raises (λ f. P (hide_sql f)) s.available _ db storage tt)))

    pub read_classification-Raises : (id : ℕ) → Raises P (read_classification s actor id db)
    unfolding read_classification Repository.get_classification
    read_classification-Raises id =
        then-Raises P (require_role actor viewer) _ (role-Raises viewer) (
          then-Raises P (require s.jobs storage_unavailable) _
            (require-Raises P s.jobs storage_unavailable storage)
            (rethrow-Raises P hide_sql _
              (connect-Raises (λ f. P (hide_sql f)) s.available _ db storage tt)))

    pub read_draft-Raises : (id : ℕ) → Raises P (read_draft s actor id db)
    unfolding read_draft Approvals.get_draft
    read_draft-Raises id = then-Raises P (require_role actor viewer) _ (role-Raises viewer) (
        then-Raises P (require s.approvals storage_unavailable) _
          (require-Raises P s.approvals storage_unavailable storage)
          (rethrow-Raises P hide_sql _
            (connect-Raises (λ f. P (hide_sql f)) s.available _ db storage tt)))

    detail_of-Raises :
        (collated : String → String → Bool) (id : ℕ) (row : Option IncidentRow)
        → Raises (λ f. P (hide_sql f)) (detail_of collated id row db)
    unfolding detail_of
    detail_of-Raises collated id none = tt
    detail_of-Raises collated id (some row) =
        bind-Raises (λ f. P (hide_sql f))
          (exactly_one (filter_by (λ t. t.incident_id == id) db.support_tickets)) _
          (only (filter_by (λ t. t.incident_id == id) db.support_tickets)) (λ ticket. tt)
      where
        only : {A : Type 0} (rows : List A) → Raises (λ f. P (hide_sql f)) (exactly_one rows)
        only [] = storage
        only (r ∷ []) = tt
        only (r ∷ t ∷ rows) = storage

    module _ (missing : P incident_not_found) where
      pub read_incident-Raises : (id : ℕ) → Raises P (read_incident s actor id db)
      unfolding read_incident get_incident
      read_incident-Raises id = then-Raises P (require_role actor viewer) _ (role-Raises viewer) (
          bind-Raises P (get_incident s.collated s.available id db) or_no_incident
            (rethrow-Raises P hide_sql _ (
              connect-Raises (λ f. P (hide_sql f)) s.available _ db storage
                (detail_of-Raises s.collated id _)))
            found)
        where
          found : (x : Option IncidentDetail) → Raises P (or_no_incident x)
          found none = missing
          found (some x) = tt

module _ (P : Failure → Type 0) (storage : P storage_unavailable) (role : P permission_error)
    (s : IncidentService) (actor : OperatorClaims) (db : Database) where
  abbrev Q : Failure → Type 0
  Q f = P (hide_sql f)

  pub create_job-Raises :
      P incident_not_found → P job_not_found → (id : ℕ) → Raises P (create_job s actor id db).0
  unfolding create_job Repository.create_classification_job
  create_job-Raises missing unknown id =
      after-Raises P s actor _ _ db
        (then-Raises P (require_role actor operator) _
          (role-Raises P storage role s actor db operator)
          (then-Raises P (require s.jobs storage_unavailable) _
            (require-Raises P s.jobs storage_unavailable storage)
            (read_incident-Raises P storage role s actor db missing id)))
        (λ incident.
          as_record-Raises P (engine_begin s.available (create_job_body s.now s.uuid4 id 3) db) (
            begin-Raises Q s.available (create_job_body s.now s.uuid4 id 3) db storage
              (create_job_body-Raises Q db s.now s.uuid4 id 3 unknown (λ name. storage))))

  pub retry_failed_job-Raises :
      P job_not_found → P invalid_job_state → (id : ℕ) → Raises P (retry_failed_job s actor id db).0
  unfolding retry_failed_job Repository.retry_job
  retry_failed_job-Raises unknown state id =
      after-Raises P s actor _ _ db
        (then-Raises P (require_role actor admin) _ (role-Raises P storage role s actor db admin)
          (require-Raises P s.jobs storage_unavailable storage))
        (λ allowed. as_record-Raises P (engine_begin s.available (retry_body s.now id) db) (
          begin-Raises Q s.available (retry_body s.now id) db storage
            (retry_body-Raises Q db s.now id unknown state storage)))

  pub draft_response-Raises :
      P incident_not_found → (id : ℕ) → Raises P (draft_response s actor id db).0
  unfolding draft_response Approvals.create_draft
  draft_response-Raises missing id =
      after-Raises P s actor _ _ db
        (then-Raises P (require_role actor operator) _
          (role-Raises P storage role s actor db operator)
          (then-Raises P (require s.approvals storage_unavailable) _
            (require-Raises P s.approvals storage_unavailable storage)
            (read_incident-Raises P storage role s actor db missing id)))
        (λ incident. drafted (build_response_draft incident))
    where
      body : String → Database → Result (DraftRecord × Database)
      body content = create_draft_body s.now s.uuid4 id content actor.operator_id

      drafted :
          (content : String) → Raises P (hidden (engine_begin s.available (body content) db)).0
      drafted content = hidden-Raises P (engine_begin s.available (body content) db) (
          begin-Raises Q s.available (body content) db storage (
            create_draft_body-Raises Q db s.now s.uuid4 id content actor.operator_id
              (λ name. storage)))

  pub decide_draft-Raises :
      P draft_not_found
      → P draft_state_conflict
      → (id : ℕ) (decision : Decision) (reason : Option String)
      → Raises P (decide_draft s actor id decision reason db).0
  unfolding decide_draft Approvals.decide
  decide_draft-Raises missing conflict id decision reason =
      after-Raises P s actor _ _ db
        (then-Raises P (require_role actor operator) _
          (role-Raises P storage role s actor db operator)
          (require-Raises P s.approvals storage_unavailable storage))
        (λ allowed. rethrow-Raises P decide_failure (engine_begin s.available body db).0 (
          begin-Raises D s.available body db storage (
            decide_body-Raises D db s.now s.uuid4 id decision actor reason missing conflict
              (λ name. conflict) storage)))
    where
      D : Failure → Type 0
      D f = P (decide_failure f)

      body : Database → Result (DraftRecord × Database)
      body = decide_body s.now s.uuid4 id decision actor reason

  pub read_incidents-Raises :
      (lib : CursorLibrary) (limit : ℕ) (cursor status priority : Option String)
      → leb 1 limit && leb limit 100 ≡ true
      → P invalid_cursor
      → Raises P (read_incidents s actor lib limit cursor status priority db)
  unfolding read_incidents list_incidents decode_incident_cursor
  read_incidents-Raises lib limit cursor status priority range bad =
      then-Raises P (require_role actor viewer) _ (role-Raises P storage role s actor db viewer) (
        rw range (
          bind-Raises P (position_of lib cursor) _ (position cursor) (λ at.
            bind-Raises P _ _
              (rethrow-Raises P hide_sql _ (connect-Raises Q s.available _ db storage tt))
              (λ rows. tt))))
    where
      decoded : {A : Type 0} (o : Option A) → Raises P (or_raise invalid_cursor o)
      decoded none = bad
      decoded (some x) = tt

      position : (cursor : Option String) → Raises P (position_of lib cursor)
      position none = tt
      position (some c) =
          bind-Raises P (decode_incident_cursor lib c) _
            (then-Raises P _ _ (require-Raises P _ invalid_cursor bad) (
              bind-Raises P (or_raise invalid_cursor (lib.b64decode _)) _ (decoded _)
                (λ bytes. decoded (lib.model_validate_json bytes))))
            (λ p. tt)
