-- ===== src/Services/Policy.antt =====
-- The role policy over all calls of the service.
use incident_intelligence_pl.Prelude.{
  ℕ, ◌≡◌, refl, ◌∙◌, ap, String, false, Option, some, List, [], ◌∷◌, All,
}
use incident_intelligence_pl.Failure.{permission_error, Result, ok, err, ◌>>=◌}
use incident_intelligence_pl.Database.{
  Database, Decision, OperatorRole, viewer, operator, admin, ClassificationRow,
}
use incident_intelligence_pl.Auth.{OperatorClaims, role_level, authorize}
use incident_intelligence_pl.Incidents.{IncidentDetail}
use incident_intelligence_pl.Jobs.{JobRecord}
use incident_intelligence_pl.Approvals.{DraftRecord}
use incident_intelligence_pl.Services.{
  IncidentService, require_role, read_incident, read_job, read_classification, read_draft,
  create_job, retry_failed_job, decide_draft, draft_response,
}

pub data Request : Type 0 where
  reads_incident reads_job reads_classification reads_draft : ℕ → Request
  creates_job retries_job drafts_response : ℕ → Request
  decides_draft : ℕ → Decision → Option String → Request

pub data Reply : Type 0 where
  incident : IncidentDetail → Reply
  job : Option JobRecord → Reply
  classification : Option ClassificationRow → Reply
  draft : Option DraftRecord → Reply

-- The role that a call asks for.
abbrev pub minimum_role : Request → OperatorRole
minimum_role (reads_incident incident_id) = viewer
minimum_role (reads_job job_id) = viewer
minimum_role (reads_classification classification_id) = viewer
minimum_role (reads_draft draft_id) = viewer
minimum_role (creates_job incident_id) = operator
minimum_role (retries_job job_id) = admin
minimum_role (drafts_response incident_id) = operator
minimum_role (decides_draft draft_id decision reason) = operator

abbrev pub replied {ℓ} : {A : Type ℓ} → (A → Reply) → Result A → Result Reply
replied make r = r >>= λ x. ok (make x)

abbrev pub stored {ℓ} : {A : Type ℓ} → (A → Reply) → Result A × Database → Result Reply × Database
stored make (r, db) = (replied make r, db)

unfoldable pub serve :
    IncidentService → OperatorClaims → Request → Database → Result Reply × Database
serve s actor (reads_incident incident_id) db =
    (replied incident (read_incident s actor incident_id db), db)
serve s actor (reads_job job_id) db = (replied job (read_job s actor job_id db), db)
serve s actor (reads_classification classification_id) db =
    (replied classification (read_classification s actor classification_id db), db)
serve s actor (reads_draft draft_id) db = (replied draft (read_draft s actor draft_id db), db)
serve s actor (creates_job incident_id) db =
    stored (λ x. job (some x)) (create_job s actor incident_id db)
serve s actor (retries_job job_id) db =
    stored (λ x. job (some x)) (retry_failed_job s actor job_id db)
serve s actor (drafts_response incident_id) db =
    stored (λ x. draft (some x)) (draft_response s actor incident_id db)
serve s actor (decides_draft draft_id decision reason) db =
    stored (λ x. draft (some x)) (decide_draft s actor draft_id decision reason db)

-- A call for which the actor's role is too low is refused whatever it asks for, and changes nothing.
pub serve-refused :
    (s : IncidentService) (actor : OperatorClaims) (q : Request) (db : Database)
    → authorize actor (minimum_role q) ≡ false
    → serve s actor q db ≡ (err permission_error, db)
unfolding serve require_role read_incident read_job read_classification read_draft create_job
    retry_failed_job draft_response decide_draft
serve-refused s actor (reads_incident incident_id) db h = rw h refl
serve-refused s actor (reads_job job_id) db h = rw h refl
serve-refused s actor (reads_classification classification_id) db h = rw h refl
serve-refused s actor (reads_draft draft_id) db h = rw h refl
serve-refused s actor (creates_job incident_id) db h = rw h refl
serve-refused s actor (retries_job job_id) db h = rw h refl
serve-refused s actor (drafts_response incident_id) db h = rw h refl
serve-refused s actor (decides_draft draft_id decision reason) db h = rw h refl

-- A viewer may only read.
serve-viewer :
    (s : IncidentService) (actor : OperatorClaims) (q : Request) (db : Database)
    → actor.role ≡ viewer
    → (serve s actor q db).1 ≡ db
unfolding serve authorize role_level
serve-viewer s actor (reads_incident incident_id) db h = refl
serve-viewer s actor (reads_job job_id) db h = refl
serve-viewer s actor (reads_classification classification_id) db h = refl
serve-viewer s actor (reads_draft draft_id) db h = refl
serve-viewer s actor (creates_job incident_id) db h =
    ap (λ p. p.1) (serve-refused s actor (creates_job incident_id) db (rw h refl))
serve-viewer s actor (retries_job job_id) db h =
    ap (λ p. p.1) (serve-refused s actor (retries_job job_id) db (rw h refl))
serve-viewer s actor (drafts_response incident_id) db h =
    ap (λ p. p.1) (serve-refused s actor (drafts_response incident_id) db (rw h refl))
serve-viewer s actor (decides_draft draft_id decision reason) db h =
    ap (λ p. p.1) (serve-refused s actor (decides_draft draft_id decision reason) db (rw h refl))

-- One call, with what it finds and who makes it.
pub record Visit : Type 0 where
  pub service : IncidentService
  pub actor : OperatorClaims
  pub request : Request

unfoldable pub serve_all : List Visit → Database → Database
serve_all [] db = db
serve_all (v ∷ vs) db = serve_all vs (serve v.service v.actor v.request db).1

-- Whatever viewers ask of the service, in any order and number, the database stays as it is.
pub serve_all-viewers :
    (visits : List Visit) (db : Database)
    → All (λ v. v.actor.role ≡ viewer) visits
    → serve_all visits db ≡ db
unfolding serve_all
serve_all-viewers [] db h = refl
serve_all-viewers (v ∷ vs) db h =
    serve_all-viewers vs (serve v.service v.actor v.request db).1 h.1
    ∙ serve-viewer v.service v.actor v.request db h.0
