-- ===== src/Approvals/Histories.antt =====
-- Histories of drafts and decisions, interleaved with anything else.
use incident_intelligence_pl.Prelude.{ℕ, String, Option, List, [], ◌∷◌}
use incident_intelligence_pl.Failure.{Availability, engine_begin-keeps}
use incident_intelligence_pl.Database.{Database, Decision, empty_database}
use incident_intelligence_pl.Auth.{OperatorClaims}
use incident_intelligence_pl.Approvals.{create_draft_body, create_draft, decide_body, decide}
use incident_intelligence_pl.Approvals.Invariant.{
  IsValid, create_draft_body-IsValid, decide_body-IsValid,
}

-- A transaction on drafts, or one of another component, which leaves drafts and decisions alone.
pub data Call : Type 0 where
  creates : Availability → ℕ → ℕ → ℕ → String → String → Call
  decides : Availability → ℕ → ℕ → ℕ → Decision → OperatorClaims → Option String → Call
  elsewhere : Database → Call

unfoldable pub apply : Call → Database → Database
apply (creates a now draft_id incident_id content created_by) db =
    (create_draft a now draft_id incident_id content created_by db).1
apply (decides a now decision_id draft_id decision operator reason) db =
    (decide a now decision_id draft_id decision operator reason db).1
apply (elsewhere other) db = record other {
  response_drafts = db.response_drafts;
  approval_decisions = db.approval_decisions;
}

unfoldable pub run : List Call → Database → Database
unfolding apply
run [] db = db
run (c ∷ cs) db = run cs (apply c db)

pub apply-IsValid : (c : Call) (db : Database) → IsValid db → IsValid (apply c db)
unfolding apply
apply-IsValid (creates a now draft_id incident_id content created_by) db v =
    unfold create_draft in
    engine_begin-keeps IsValid a (create_draft_body now draft_id incident_id content created_by) db
      v
      (λ x db' h.
        create_draft_body-IsValid now draft_id incident_id content created_by db db' x v h)
apply-IsValid (decides a now decision_id draft_id decision operator reason) db v =
    unfold decide in
    engine_begin-keeps IsValid a (decide_body now decision_id draft_id decision operator reason) db
      v
      (λ x db' h.
        decide_body-IsValid now decision_id draft_id decision operator reason db db' x v h)
apply-IsValid (elsewhere other) db v = record {
  status = v.status;
  drafts = v.drafts;
  about = v.about;
  by_operators = v.by_operators;
}

run-IsValid : (calls : List Call) (db : Database) → IsValid db → IsValid (run calls db)
unfolding run
run-IsValid [] db v = v
run-IsValid (c ∷ cs) db v = run-IsValid cs (apply c db) (apply-IsValid c db v)

-- After any history of drafts and decisions that starts from the empty database: a draft is pending
-- exactly while no decision is stored about it, and otherwise has the status of its decision; draft
-- identifiers are unique, every decision is about a stored draft, and none was made by a viewer.
pub drafts-IsValid : (calls : List Call) → IsValid (run calls empty_database)
drafts-IsValid calls =
    run-IsValid calls empty_database
      (record { status = tt; drafts = tt; about = tt; by_operators = tt })
