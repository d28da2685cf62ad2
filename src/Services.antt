-- ===== src/Services.antt =====
-- services.py: the role policy in front of the repositories. A call that reads and then writes
-- does both at one database.
pub mod Policy
pub mod Transactions
pub mod Raised
mod Tests
use incident_intelligence_pl.Prelude.{
  ℕ, String, Bool, Option, none, some, List, [], ◌∷◌, map, concat, join,
}
use incident_intelligence_pl.Failure.{
  permission_error, incident_not_found, storage_unavailable, Result, ok, err, ◌>>=◌, ◌>>◌, require,
  Availability,
}
use incident_intelligence_pl.Database.{
  Database, Decision, OperatorRole, viewer, operator, admin, ClassificationRow,
}
use incident_intelligence_pl.Auth.{OperatorClaims, authorize}
use incident_intelligence_pl.Incidents.{IncidentDetail, get_incident}
use incident_intelligence_pl.Incidents.Paging.{CursorLibrary, IncidentPage, list_incidents}
use incident_intelligence_pl.Jobs.{JobRecord}
use incident_intelligence_pl.Jobs.Repository
use incident_intelligence_pl.Approvals
use incident_intelligence_pl.Approvals.{DraftRecord}

-- `IncidentService`: whether its two optional repositories are given; and what a call finds: whether
-- the database answers, the time, an identifier to draw, and the collation.
pub record IncidentService : Type 0 where
  pub jobs : Bool
  pub approvals : Bool
  pub available : Availability
  pub now : ℕ
  pub uuid4 : ℕ
  pub collated : String → String → Bool

-- `_require_role`
unfoldable pub require_role : OperatorClaims → OperatorRole → Result (Unit {0})
require_role actor minimum_role = require (authorize actor minimum_role) permission_error

abbrev pub or_no_incident : Option IncidentDetail → Result IncidentDetail
or_no_incident none = err incident_not_found
or_no_incident (some incident) = ok incident

module _ (s : IncidentService) (actor : OperatorClaims) where
  unfoldable pub read_incidents :
      CursorLibrary
      → ℕ
      → Option String
      → Option String
      → Option String
      → Database
      → Result IncidentPage
  unfolding require_role
  read_incidents lib limit cursor status priority db = do
    require_role actor viewer
    list_incidents lib s.available limit cursor status priority db

  unfoldable pub read_incident : ℕ → Database → Result IncidentDetail
  unfolding require_role
  read_incident incident_id db = do
    require_role actor viewer
    found ← get_incident s.collated s.available incident_id db
    or_no_incident found

  unfoldable pub read_job : ℕ → Database → Result (Option JobRecord)
  unfolding require_role
  read_job job_id db = do
    require_role actor viewer
    require s.jobs storage_unavailable
    Repository.get_job s.available job_id db

  unfoldable pub read_classification : ℕ → Database → Result (Option ClassificationRow)
  unfolding require_role
  read_classification classification_id db = do
    require_role actor viewer
    require s.jobs storage_unavailable
    Repository.get_classification s.available classification_id db

  unfoldable pub read_draft : ℕ → Database → Result (Option DraftRecord)
  unfolding require_role
  read_draft draft_id db = do
    require_role actor viewer
    require s.approvals storage_unavailable
    Approvals.get_draft s.available draft_id db

  -- A call that writes once the checks before it have passed.
  abbrev pub after {ℓ κ} :
      {A : Type ℓ} {B : Type κ}
      → Result A
      → (A → Database → Result B × Database)
      → Database
      → Result B × Database
  after (err e) write db = (err e, db)
  after (ok x) write db = write x db

  unfoldable pub create_job : ℕ → Database → Result JobRecord × Database
  unfolding require_role read_incident
  create_job incident_id db =
      after
        (do
          require_role actor operator
          require s.jobs storage_unavailable
          read_incident incident_id db)
        (λ incident. Repository.create_classification_job s.available s.now s.uuid4 incident_id 3)
        db

  unfoldable pub retry_failed_job : ℕ → Database → Result JobRecord × Database
  unfolding require_role
  retry_failed_job job_id db =
      after (do require_role actor admin; require s.jobs storage_unavailable)
        (λ allowed. Repository.retry_job s.available s.now job_id) db

  unfoldable pub decide_draft :
      ℕ → Decision → Option String → Database → Result DraftRecord × Database
  unfolding require_role
  decide_draft draft_id decision reason db =
      after (do require_role actor operator; require s.approvals storage_unavailable)
        (λ allowed. Approvals.decide s.available s.now s.uuid4 draft_id decision actor reason) db

-- `build_response_draft` of approvals.py
unfoldable pub build_response_draft : IncidentDetail → String
build_response_draft incident =
    let evidence_ids = join ", " (map (λ item. item.event_id) incident.evidence) in
    concat (
      "Review incident " ∷ incident.overview.correlation_id ∷ ": " ∷ incident.overview.summary
      ∷ ". " ∷ "Evidence: " ∷ evidence_ids ∷ ". "
      ∷ "Draft only. Verify the cited evidence and choose an operator-approved next action." ∷ [])

unfoldable pub draft_response :
    IncidentService → OperatorClaims → ℕ → Database → Result DraftRecord × Database
unfolding require_role read_incident
draft_response s actor incident_id db =
    after s actor
      (do
        require_role actor operator
        require s.approvals storage_unavailable
        read_incident s actor incident_id db)
      (λ incident.
        Approvals.create_draft s.available s.now s.uuid4 incident_id (build_response_draft incident)
          actor.operator_id)
      db
