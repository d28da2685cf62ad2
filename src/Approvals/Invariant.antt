-- ===== src/Approvals/Invariant.antt =====
-- The status of a draft is that of its decision, and every decision is about a draft.
use incident_intelligence_pl.Prelude.{
  ℕ, ◌≡◌, refl, sym, ◌∙◌, ap, subst, String, true, Option, none, some, List, [], ◌∷◌, arith, All,
  ◌==◌, ==_iff, is_some, Bool-cases, Option-cases, inl, inr,
}
use incident_intelligence_pl.Prelude.Keyed
use incident_intelligence_pl.Prelude.Keyed.{find_row, update_row, Distinct}
use incident_intelligence_pl.Failure.{ok}
use incident_intelligence_pl.Database.{
  Database, DraftRow, DraftStatus, pending_review, Decision, DecisionRow,
}
use incident_intelligence_pl.Auth.{OperatorClaims}
use incident_intelligence_pl.Approvals.{
  DraftRecord, draft_key, decided_draft, status_of, is_pending, draft_from_row, new_draft,
  create_draft_body, decision_row, set_status, decide_body, may_decide,
}

abbrev pub status_by : Option DecisionRow → DraftStatus
status_by none = pending_review
status_by (some d) = status_of d.decision

pub record IsValid (db : Database) : Type 0 where
  pub status :
      All
        (λ r. r.status ≡ status_by (find_row decided_draft r.id db.approval_decisions))
        db.response_drafts
  pub drafts : Distinct draft_key db.response_drafts
  pub about :
      All
        (λ d. is_some (find_row draft_key d.draft_id db.response_drafts) ≡ true)
        db.approval_decisions
  pub by_operators : All (λ d. may_decide d.operator_role ≡ true) db.approval_decisions

pub set_status-KeepsId :
    (status : DraftStatus) (at : ℕ) (r : DraftRow) → (set_status status at r).id ≡ r.id
unfolding set_status
set_status-KeepsId status at r = refl

-- A decision that goes through found a pending draft with no decision.
pub decide_body-ok :
    (now decision_id draft_id : ℕ) (decision : Decision) (operator : OperatorClaims)
    (reason : Option String) (db db' : Database) {x : DraftRecord}
    → decide_body now decision_id draft_id decision operator reason db ≡ ok (x, db')
    → let made = decision_row now decision_id draft_id decision operator reason in
      let write = set_status (status_of decision) now in
      (current : DraftRow) × (find_row draft_key draft_id db.response_drafts ≡ some current)
      × (is_pending current.status ≡ true)
      × (may_decide operator.role ≡ true)
      × (find_row decided_draft draft_id db.approval_decisions ≡ none)
      × (x ≡ draft_from_row (write current) (some made))
      × (db' ≡ record db {
        approval_decisions = made ∷ db.approval_decisions;
        response_drafts = update_row draft_key draft_id write db.response_drafts;
      })
unfolding decide_body
decide_body-ok now decision_id draft_id decision operator reason db db' {x} h =
    elim (Option-cases (find_row draft_key draft_id db.response_drafts)) [
      | inl e ↦ absurd (ground arith)
      | inr (current, e) ↦
          let write =
            Keyed.find_row-update_row_self draft_key draft_id (set_status (status_of decision) now)
              db.response_drafts current (set_status-KeepsId (status_of decision) now) e in
          (
            current,
            e,
            ground arith,
            ground arith,
            ground arith,
            ground (arith, write),
            ground (arith, write),
          )
    ]

pub create_draft_body-ok :
    (now draft_id incident_id : ℕ) (content created_by : String) (db db' : Database)
    {x : DraftRecord}
    → create_draft_body now draft_id incident_id content created_by db ≡ ok (x, db')
    → let row = new_draft now draft_id incident_id content created_by in
      (find_row draft_key draft_id db.response_drafts ≡ none)
      × (x ≡ draft_from_row row none)
      × (db' ≡ record db { response_drafts = row ∷ db.response_drafts })
unfolding create_draft_body
create_draft_body-ok now draft_id incident_id content created_by db db' h =
    (ground arith, ground arith, ground arith)

-- A draft that no decision is about, since it is not there.
undecided :
    (draft_id : ℕ) (drafts : List DraftRow) (decisions : List DecisionRow)
    → find_row draft_key draft_id drafts ≡ none
    → All (λ d. is_some (find_row draft_key d.draft_id drafts) ≡ true) decisions
    → find_row decided_draft draft_id decisions ≡ none
undecided draft_id drafts [] none' h = unfold find_row in refl
undecided draft_id drafts (d ∷ decisions) none' h = elim (Bool-cases (d.draft_id == draft_id)) [
  | inl e ↦
      absurd
        (clash (ap (λ k. is_some (find_row draft_key k drafts)) ((==_iff d.draft_id draft_id).0 e)))
  | inr e ↦
      Keyed.find_row-cons decided_draft draft_id d decisions
      ∙ rw e (undecided draft_id drafts decisions none' h.1)
]
  where
    clash :
        is_some (find_row draft_key d.draft_id drafts)
          ≡ is_some (find_row draft_key draft_id drafts)
        → ⊥
    clash e = ground (arith, h.0)

-- The draft that is decided takes the status of its decision, the others keep theirs.
status-decided :
    (made : DecisionRow) (at : ℕ) (drafts : List DraftRow) (decisions : List DecisionRow)
    → All (λ r. r.status ≡ status_by (find_row decided_draft r.id decisions)) drafts
    → All
        (λ r. r.status ≡ status_by (find_row decided_draft r.id (made ∷ decisions)))
        (update_row draft_key made.draft_id (set_status (status_of made.decision) at) drafts)
unfolding find_row update_row set_status
status-decided made at [] decisions h = tt
status-decided made at (r ∷ drafts) decisions h = (
  elim (Bool-cases (r.id == made.draft_id)) [ inl e ↦ ground arith | inr e ↦ ground (arith, h.0) ],
  status-decided made at drafts decisions h.1,
)

pub decide_body-IsValid :
    (now decision_id draft_id : ℕ) (decision : Decision) (operator : OperatorClaims)
    (reason : Option String) (db db' : Database) (x : DraftRecord)
    → IsValid db
    → decide_body now decision_id draft_id decision operator reason db ≡ ok (x, db')
    → IsValid db'
decide_body-IsValid now decision_id draft_id decision operator reason db db' x v h =
    let (current, found, pending, may, undone, made, stored) =
      decide_body-ok now decision_id draft_id decision operator reason db db' h in
    let row = decision_row now decision_id draft_id decision operator reason in
    let keep = set_status-KeepsId (status_of decision) now in
    let write = set_status (status_of decision) now in
    let kept = λ (k : ℕ).
      Keyed.find_row-update_row_some draft_key k draft_id write db.response_drafts keep in
    subst IsValid (sym stored) (
      unfold decision_row in
      (record {
        status = status-decided row now db.response_drafts db.approval_decisions v.status;
        drafts =
            Keyed.Distinct-update_row draft_key draft_id write db.response_drafts keep v.drafts;
        about = (
          kept draft_id (ap is_some found),
          Keyed.All-imp (λ d. is_some (find_row draft_key d.draft_id db.response_drafts) ≡ true)
              (λ d.
                is_some (
                  find_row draft_key d.draft_id
                    (update_row draft_key draft_id write db.response_drafts))
                ≡ true)
              db.approval_decisions (λ d e. kept d.draft_id e) v.about,
        );
        by_operators = (may, v.by_operators);
      }))

pub create_draft_body-IsValid :
    (now draft_id incident_id : ℕ) (content created_by : String) (db db' : Database)
    (x : DraftRecord)
    → IsValid db
    → create_draft_body now draft_id incident_id content created_by db ≡ ok (x, db')
    → IsValid db'
create_draft_body-IsValid now draft_id incident_id content created_by db db' x v h =
    let (fresh, made, stored) =
      create_draft_body-ok now draft_id incident_id content created_by db db' h in
    let row = new_draft now draft_id incident_id content created_by in
    let none_yet = undecided draft_id db.response_drafts db.approval_decisions fresh v.about in
    subst IsValid (sym stored) (
      unfold new_draft in
      (record {
        status = (rw none_yet, v.status);
        drafts = (Keyed.find_row-none_ne draft_key draft_id db.response_drafts fresh, v.drafts);
        about =
            Keyed.All-imp (λ d. is_some (find_row draft_key d.draft_id db.response_drafts) ≡ true)
              (λ d. is_some (find_row draft_key d.draft_id (row ∷ db.response_drafts)) ≡ true)
              db.approval_decisions (λ d e. still row d e) v.about;
        by_operators = v.by_operators;
      }))
  where
    still :
        (row : DraftRow) (d : DecisionRow)
        → is_some (find_row draft_key d.draft_id db.response_drafts) ≡ true
        → is_some (find_row draft_key d.draft_id (row ∷ db.response_drafts)) ≡ true
    still row d e =
        rw (Keyed.find_row-cons draft_key d.draft_id row db.response_drafts) (ground arith)
