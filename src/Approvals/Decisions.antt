-- ===== src/Approvals/Decisions.antt =====
-- A decision is final: it is read back as it was made, and no second one is taken.
use incident_intelligence_pl.Prelude.{
  ℕ, ◌≡◌, ◌≢◌, refl, sym, ◌∙◌, ap, subst, String, false, Option, some, List, [], ◌∷◌, arith,
}
use incident_intelligence_pl.Prelude.Keyed
use incident_intelligence_pl.Prelude.Keyed.{find_row, update_row}
use incident_intelligence_pl.Failure.{
  Result, ok, err, up, Availability, engine_begin-keeps, settle, rethrow, draft_state_conflict,
}
use incident_intelligence_pl.Database.{Database, DraftRow, Decision, DecisionRow}
use incident_intelligence_pl.Auth.{OperatorClaims}
use incident_intelligence_pl.Approvals.{
  DraftRecord, draft_key, decided_draft, status_of, is_pending, draft_from_row, new_draft,
  create_draft_body, create_draft, decision_row, set_status, decide_body, decide, decide_failure,
  get_draft,
}
use incident_intelligence_pl.Approvals.Invariant.{
  decide_body-ok, create_draft_body-ok, set_status-KeepsId,
}
use incident_intelligence_pl.Approvals.Histories.{Call, creates, decides, elsewhere, apply, run}

-- The draft and its decision, as stored.
pub record IsDecided (draft_id : ℕ) (row : DraftRow) (made : DecisionRow) (db : Database)
    : Type 0 where
  pub draft : find_row draft_key draft_id db.response_drafts ≡ some row
  pub decision : find_row decided_draft draft_id db.approval_decisions ≡ some made
  pub closed : is_pending row.status ≡ false

module _ (draft_id : ℕ) (row : DraftRow) (made : DecisionRow) where
  decide-keeps :
      (a : Availability) (now decision_id other : ℕ) (decision : Decision)
      (operator : OperatorClaims) (reason : Option String) (db : Database)
      → IsDecided draft_id row made db
      → IsDecided draft_id row made (decide a now decision_id other decision operator reason db).1
  unfolding decide
  decide-keeps a now decision_id other decision operator reason db d =
      engine_begin-keeps (IsDecided draft_id row made) a
        (decide_body now decision_id other decision operator reason) db d
        (λ x db' h.
          let (current, found, pending, may, undone, same, stored) =
            decide_body-ok now decision_id other decision operator reason db db' h in
          let ne : draft_id ≢ other = λ e.
            cc (d.decision, undone, ap (λ k. find_row decided_draft k db.approval_decisions) e) in
          subst (IsDecided draft_id row made) (sym stored) (record {
            draft =
                Keyed.find_row-update_row_ne draft_key draft_id other
                  (set_status (status_of decision) now) db.response_drafts
                  (set_status-KeepsId (status_of decision) now) ne
                ∙ d.draft;
            decision =
                Keyed.find_row-cons decided_draft draft_id
                  (decision_row now decision_id other decision operator reason)
                  db.approval_decisions
                ∙ unfold decision_row in ground (arith, d.decision, ne);
            closed = d.closed;
          }))

  create-keeps :
      (a : Availability) (now other incident_id : ℕ) (content created_by : String) (db : Database)
      → IsDecided draft_id row made db
      → IsDecided draft_id row made (create_draft a now other incident_id content created_by db).1
  unfolding create_draft
  create-keeps a now other incident_id content created_by db d =
      engine_begin-keeps (IsDecided draft_id row made) a
        (create_draft_body now other incident_id content created_by) db d
        (λ x db' h.
          let (fresh, same, stored) =
            create_draft_body-ok now other incident_id content created_by db db' h in
          let ne : draft_id ≢ other =
            λ e. cc (d.draft, fresh, ap (λ k. find_row draft_key k db.response_drafts) e) in
          subst (IsDecided draft_id row made) (sym stored) (record {
            draft =
                Keyed.find_row-cons draft_key draft_id
                  (new_draft now other incident_id content created_by) db.response_drafts
                ∙ unfold new_draft in ground (arith, d.draft, ne);
            decision = d.decision;
            closed = d.closed;
          }))

  apply-keeps :
      (c : Call) (db : Database)
      → IsDecided draft_id row made db
      → IsDecided draft_id row made (apply c db)
  unfolding apply
  apply-keeps (creates a now other incident_id content created_by) db d =
      create-keeps a now other incident_id content created_by db d
  apply-keeps (decides a now decision_id other decision operator reason) db d =
      decide-keeps a now decision_id other decision operator reason db d
  apply-keeps (elsewhere other) db d = record {
    draft = d.draft;
    decision = d.decision;
    closed = d.closed;
  }

  run-keeps :
      (calls : List Call) (db : Database)
      → IsDecided draft_id row made db
      → IsDecided draft_id row made (run calls db)
  unfolding run
  run-keeps [] db d = d
  run-keeps (c ∷ cs) db d = run-keeps cs (apply c db) (apply-keeps c db d)

  get_draft-decided :
      (db : Database)
      → IsDecided draft_id row made db
      → get_draft up draft_id db ≡ ok (some (draft_from_row row (some made)))
  unfolding get_draft
  get_draft-decided db d =
      let same : row.id ≡ draft_id =
        Keyed.key-find_row draft_key draft_id db.response_drafts row d.draft in
      rw (d.draft, same, d.decision)

  decide-refused :
      (now decision_id : ℕ) (decision : Decision) (operator : OperatorClaims)
      (reason : Option String) (db : Database)
      → IsDecided draft_id row made db
      → decide up now decision_id draft_id decision operator reason db
        ≡ (err draft_state_conflict, db)
  unfolding decide
  decide-refused now decision_id decision operator reason db d = rw (d.draft, d.closed)

-- A decision that is answered ran its transaction to the end.
decide-ok :
    (now decision_id draft_id : ℕ) (decision : Decision) (operator : OperatorClaims)
    (reason : Option String) (db db' : Database) (x : DraftRecord)
    → decide up now decision_id draft_id decision operator reason db ≡ (ok x, db')
    → decide_body now decision_id draft_id decision operator reason db ≡ ok (x, db')
unfolding decide
decide-ok now decision_id draft_id decision operator reason db db' x h =
    go (decide_body now decision_id draft_id decision operator reason db) refl h
  where
    go :
        (r : Result (DraftRecord × Database))
        → decide_body now decision_id draft_id decision operator reason db ≡ r
        → ◌≡◌ {A = Result DraftRecord × Database}
            (rethrow decide_failure (settle db r).0, (settle db r).1)
            (ok x, db')
        → decide_body now decision_id draft_id decision operator reason db ≡ ok (x, db')
    go (ok (row, db₁)) e k = ground arith
    go (err f) e k = absurd (ground arith)

closes : (decision : Decision) → is_pending (status_of decision) ≡ false
closes Decision.approved = refl
closes Decision.rejected = refl

-- The draft and the decision that a recorded decision answers with are those stored.
decide-IsDecided :
    (now decision_id draft_id : ℕ) (decision : Decision) (operator : OperatorClaims)
    (reason : Option String) (db db' : Database) (x : DraftRecord)
    → decide up now decision_id draft_id decision operator reason db ≡ (ok x, db')
    → (row : DraftRow) × (made : DecisionRow) × IsDecided draft_id row made db'
      × (x ≡ draft_from_row row (some made))
decide-IsDecided now decision_id draft_id decision operator reason db db' x h =
    let (current, found, pending, may, undone, same, stored) =
      decide_body-ok now decision_id draft_id decision operator reason db db'
        (decide-ok now decision_id draft_id decision operator reason db db' x h) in
    let made = decision_row now decision_id draft_id decision operator reason in
    let write = set_status (status_of decision) now in
    (
      write current,
      made,
      subst (IsDecided draft_id (write current) made) (sym stored) (record {
        draft =
            Keyed.find_row-update_row_self draft_key draft_id write db.response_drafts current
              (set_status-KeepsId (status_of decision) now) found;
        decision =
            Keyed.find_row-cons decided_draft draft_id made db.approval_decisions
            ∙ unfold decision_row in ground arith;
        closed = unfold set_status in closes decision;
      }),
      same,
    )

-- After a decision about a draft was recorded, whatever transactions follow: reading the draft gives
-- exactly what the decision answered with, and any further decision about it, by whomever, is refused
-- as a conflict and leaves the database as it is.
pub decide-final :
    (now decision_id draft_id : ℕ) (decision : Decision) (operator : OperatorClaims)
    (reason : Option String) (db db' : Database) (x : DraftRecord) (calls : List Call)
    (now₂ decision_id₂ : ℕ) (decision₂ : Decision) (operator₂ : OperatorClaims)
    (reason₂ : Option String)
    → decide up now decision_id draft_id decision operator reason db ≡ (ok x, db')
    → (get_draft up draft_id (run calls db') ≡ ok (some x))
      × (decide up now₂ decision_id₂ draft_id decision₂ operator₂ reason₂ (run calls db')
          ≡ (err draft_state_conflict, run calls db'))
decide-final now decision_id draft_id decision operator reason db db' x calls now₂ decision_id₂
      decision₂ operator₂ reason₂ h =
    let (row, made, d, same) =
      decide-IsDecided now decision_id draft_id decision operator reason db db' x h in
    let kept = run-keeps draft_id row made calls db' d in
    (
      get_draft-decided draft_id row made (run calls db') kept ∙ ap (λ r. ok (some r)) (sym same),
      decide-refused draft_id row made now₂ decision_id₂ decision₂ operator₂ reason₂ (run calls db')
          kept,
    )
