-- ===== src/Approvals/Tests.antt =====
-- The theorems on drafts at a concrete incident: a draft is made, approved, and asked about again.
use incident_intelligence_pl.Prelude.{◌≡◌, refl, some, none, List, [], ◌∷◌}
use incident_intelligence_pl.Prelude.Keyed.{find_row, update_row}
use incident_intelligence_pl.Failure.{ok, err, up, down, draft_state_conflict}
use incident_intelligence_pl.Database.{
  Database, IncidentRow, Decision, DraftRow, DraftStatus, OperatorRole, empty_database,
}
use incident_intelligence_pl.Schemas.{Priority}
use incident_intelligence_pl.Auth.{OperatorClaims}
use incident_intelligence_pl.Approvals.{
  DraftRecord, draft_from_row, new_draft, set_status, decision_row, decide, insert_decision,
  get_draft,
}
use incident_intelligence_pl.Approvals.Invariant.{IsValid}
use incident_intelligence_pl.Approvals.Histories.{
  Call, creates, decides, elsewhere, run, drafts-IsValid,
}
use incident_intelligence_pl.Approvals.Decisions.{decide-final}

abbrev incident : IncidentRow
incident = record {
  id = 7;
  correlation_id = "corr-0007";
  status = "open";
  priority = Priority.high;
  summary = "MFA lockout";
  created_at = 0;
  updated_at = 0;
}

abbrev alice : OperatorClaims
alice = record { operator_id = "alice"; role = OperatorRole.operator }

abbrev bob : OperatorClaims
bob = record { operator_id = "bob"; role = OperatorRole.admin }

abbrev table : Database
table = record empty_database { incidents = incident ∷ [] }

abbrev drafted : Database
drafted = record table { response_drafts = new_draft 10 1 7 "Please sign in again." "alice" ∷ [] }

abbrev history : List Call
history =
    elsewhere table
    ∷ creates up 10 1 7 "Please sign in again." "alice"
    ∷ decides down 20 50 1 Decision.approved bob none
    ∷ decides up 21 50 1 Decision.approved bob none
    ∷ decides up 22 51 1 Decision.rejected alice (some "too late")
    ∷ []

drafts-IsValid_example : IsValid (run history empty_database)
drafts-IsValid_example = drafts-IsValid history

abbrev row : DraftRow
row = set_status DraftStatus.approved 21 (new_draft 10 1 7 "Please sign in again." "alice")

abbrev approved : DraftRecord
approved = draft_from_row row (some (decision_row 21 50 1 Decision.approved bob none))

abbrev closed : Database
closed = record table {
  response_drafts = row ∷ [];
  approval_decisions = decision_row 21 50 1 Decision.approved bob none ∷ [];
}

approved_now : decide up 21 50 1 Decision.approved bob none drafted ≡ (ok approved, closed)
unfolding decide find_row update_row insert_decision decision_row set_status new_draft
    draft_from_row
approved_now = refl

decide-final_example :
    (get_draft up 1 (run history closed) ≡ ok (some approved))
    × (decide up 30 52 1 Decision.rejected alice none (run history closed)
        ≡ (err draft_state_conflict, run history closed))
decide-final_example =
    decide-final 21 50 1 Decision.approved bob none drafted closed approved history 30 52
      Decision.rejected alice none approved_now
