-- ===== src/Services/Tests.antt =====
-- The role policy for a concrete viewer and a concrete operator at an empty database.
use incident_intelligence_pl.Prelude.{◌≡◌, refl, true, none, List, [], ◌∷◌, str_eq}
use incident_intelligence_pl.Failure.{permission_error, err, up}
use incident_intelligence_pl.Database.{Decision, OperatorRole, empty_database}
use incident_intelligence_pl.Auth.{OperatorClaims, authorize, role_level}
use incident_intelligence_pl.Services.{IncidentService}
use incident_intelligence_pl.Services.Policy.{
  reads_job, retries_job, decides_draft, creates_job, serve, serve-refused, Visit, serve_all,
  serve_all-viewers,
}

abbrev service : IncidentService
service = record {
  jobs = true;
  approvals = true;
  available = up;
  now = 10;
  uuid4 = 1;
  collated = λ a b. str_eq a b;
}

abbrev carol : OperatorClaims
carol = record { operator_id = "carol"; role = OperatorRole.viewer }

abbrev alice : OperatorClaims
alice = record { operator_id = "alice"; role = OperatorRole.operator }

-- An operator may not requeue a failed job.
serve-refused_example :
    serve service alice (retries_job 1) empty_database ≡ (err permission_error, empty_database)
unfolding authorize role_level
serve-refused_example = serve-refused service alice (retries_job 1) empty_database refl

abbrev visits : List Visit
visits =
    record { service = service; actor = carol; request = reads_job 1 }
    ∷ record { service = service; actor = carol; request = creates_job 1 }
    ∷ record { service = service; actor = carol; request = decides_draft 1 Decision.approved none }
    ∷ []

serve_all-viewers_example : serve_all visits empty_database ≡ empty_database
serve_all-viewers_example = serve_all-viewers visits empty_database (refl, (refl, (refl, tt)))
