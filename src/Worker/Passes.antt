-- ===== src/Worker/Passes.antt =====
-- The passes of a round, one after the other, over jobs that the worker holds.
use incident_intelligence_pl.Prelude.{
  ℕ, suc, ◌≤◌, ◌≡◌, refl, sym, ◌∙◌, ap, ◌≢◌, String, Bool, true, Option, none, some, List, [], ◌∷◌,
  All, map, arith,
}
use incident_intelligence_pl.Prelude.Keyed.{find_row, Distinct}
use incident_intelligence_pl.Failure.{Result, ok, up}
use incident_intelligence_pl.Database.{Database, JobRow, ClassificationResult}
use incident_intelligence_pl.Schemas.{EventBundle}
use incident_intelligence_pl.Jobs.{job_from_row}
use incident_intelligence_pl.Jobs.Repository.{job_key, classification_key, owned_by}
use incident_intelligence_pl.Worker.{Turn, Counters, classify_job, work_on, continue, work_through}
use incident_intelligence_pl.Worker.Verdict.{
  attempted, settled_row, settled_counters, saved, settled_db,
}
use incident_intelligence_pl.Worker.Outcome.{settled-found, settled-saved, work_on_lem}
use incident_intelligence_pl.Worker.Frame.{
  SameIncidents, classify_job-same, settled_db-SameIncidents, settled_db-other_job,
  settled_db-other_result,
}

-- The worker holds the job.
pub record IsHeld (db : Database) (row : JobRow) : Type 0 where
  pub found : find_row job_key row.id db.outbox_jobs ≡ some row
  pub token : ℕ
  pub carries : row.claim_token ≡ some token
  pub owned : owned_by row token ≡ true

-- The database answers when a failure is recorded, and the results' identifiers are new.
pub record IsUsable (turns : ℕ → Turn) (i : ℕ) (db : Database) : Type 0 where
  pub reports : (j : ℕ) → (turns j).reports ≡ up
  pub fresh :
      (j : ℕ) → i ≤ j → find_row classification_key (turns j).result_id db.classifications ≡ none
  pub apart : (j k : ℕ) → j ≢ k → (turns j).result_id ≢ (turns k).result_id

module _ (collated : String → String → Bool)
    (classifier : EventBundle → Result ClassificationResult) (turns : ℕ → Turn) where
  -- What comes of the job of a row, taken at a turn with what the database holds after the claim.
  abbrev pub outcome : Database → ℕ → JobRow → Result ClassificationResult
  outcome db i row =
      attempted (turns i).writes
        (classify_job collated classifier (turns i).reads row.incident_id db)

  -- Each row was taken at its turn: the final database has it settled, and its result stored.
  abbrev pub AllSettled : Database → Database → ℕ → List JobRow → Type 0
  AllSettled db final i [] = Unit
  AllSettled db final i (row ∷ rows) =
      (find_row job_key row.id final.outbox_jobs
        ≡ some (settled_row (turns i) (outcome db i row) row))
      × (find_row classification_key (turns i).result_id final.classifications
          ≡ saved (turns i) (outcome db i row) row)
      × AllSettled db final (suc i) rows

  abbrev pub counted_all : Database → ℕ → List JobRow → Option Counters → Option Counters
  counted_all db i [] m = m
  counted_all db i (row ∷ rows) m =
      counted_all db (suc i) rows (settled_counters (outcome db i row) row m)

  abbrev pub settled_all : Database → ℕ → List JobRow → Database → Database
  settled_all db₀ i [] db = db
  settled_all db₀ i (row ∷ rows) db =
      settled_all db₀ (suc i) rows (settled_db (turns i) row.id (outcome db₀ i row) row db)

  pub settled_all-other_job :
      (db₀ : Database) (i j : ℕ) (rows : List JobRow) (db : Database)
      → All (λ r. r.id ≢ j) rows
      → find_row job_key j (settled_all db₀ i rows db).outbox_jobs
        ≡ find_row job_key j db.outbox_jobs
  settled_all-other_job db₀ i j [] db ne = refl
  settled_all-other_job db₀ i j (row ∷ rows) db ne =
      settled_all-other_job db₀ (suc i) j rows _ ne.1
      ∙ settled_db-other_job (turns i) row.id db row (outcome db₀ i row) j (λ e. ne.0 (sym e))

  settled_all-other_result :
      (db₀ : Database) (i k : ℕ) (rows : List JobRow) (db : Database)
      → ((j : ℕ) → i ≤ j → (turns j).result_id ≢ k)
      → find_row classification_key k (settled_all db₀ i rows db).classifications
        ≡ find_row classification_key k db.classifications
  settled_all-other_result db₀ i k [] db ne = refl
  settled_all-other_result db₀ i k (row ∷ rows) db ne =
      settled_all-other_result db₀ (suc i) k rows _ (λ j le. ne j (omega arith))
      ∙ settled_db-other_result (turns i) row.id db row (outcome db₀ i row) k (ne i (omega arith))

  -- The jobs that are still to come are held after a pass as before it.
  settled_db-IsHeld :
      (i : ℕ) (row : JobRow) (r : Result ClassificationResult) (rows : List JobRow) (db : Database)
      → All (λ s. s.id ≢ row.id) rows
      → All (IsHeld db) rows
      → All (IsHeld (settled_db (turns i) row.id r row db)) rows
  settled_db-IsHeld i row r [] db ne held = tt
  settled_db-IsHeld i row r (s ∷ rows) db ne held = (
    record {
      found = settled_db-other_job (turns i) row.id db row r s.id ne.0 ∙ held.0.found;
      token = held.0.token;
      carries = held.0.carries;
      owned = held.0.owned;
    },
    settled_db-IsHeld i row r rows db ne.1 held.1,
  )

  settled_db-IsUsable :
      (i : ℕ) (row : JobRow) (r : Result ClassificationResult) (db : Database)
      → IsUsable turns i db
      → IsUsable turns (suc i) (settled_db (turns i) row.id r row db)
  settled_db-IsUsable i row r db u = record {
    reports = u.reports;
    fresh = λ j le.
        settled_db-other_result (turns i) row.id db row r (turns j).result_id
          (u.apart i j (λ e. omega (arith, e)))
        ∙ u.fresh j (omega arith);
    apart = u.apart;
  }

  SameIncidents-trans :
      (a b c : Database) → SameIncidents a b → SameIncidents b c → SameIncidents a c
  SameIncidents-trans a b c p q = record {
    incidents = q.incidents ∙ p.incidents;
    tickets = q.tickets ∙ p.tickets;
    evidence = q.evidence ∙ p.evidence;
  }

  pub work_through_lem :
      (db₀ : Database) (i : ℕ) (rows : List JobRow) (db : Database) (m : Option Counters)
      → SameIncidents db₀ db
      → Distinct job_key rows
      → All (IsHeld db) rows
      → IsUsable turns i db
      → work_through collated classifier turns i (map job_from_row rows) (db, m)
        ≡ (ok tt, (settled_all db₀ i rows db, counted_all db₀ i rows m))
  unfolding work_through job_from_row
  work_through_lem db₀ i [] db m same d held u = refl
  work_through_lem db₀ i (row ∷ rows) db m same d held u =
      let t = turns i in
      let h : IsHeld db row = held.0 in
      let r = outcome db₀ i row in
      let first =
        work_on_lem collated classifier t row.id h.token db m row h.found h.owned (u.reports i)
          (u.fresh i (omega arith)) (job_from_row row) refl in
      let as_claimed = classify_job-same collated classifier t.reads row.incident_id db₀ db same in
      let after = settled_db t row.id r row db in
      let rest =
        work_through_lem db₀ (suc i) rows after (settled_counters r row m)
          (SameIncidents-trans db₀ db after same (settled_db-SameIncidents t row.id db row r)) d.1
          (settled_db-IsHeld i row r rows db d.0 held.1) (settled_db-IsUsable i row r db u) in
      let step =
        ap (λ token. work_on collated classifier t (job_from_row row) token (db, m)) h.carries
        ∙ first
        ∙ ap (λ x. (ok tt, (settled_db t row.id x row db, settled_counters x row m)))
            (ap (attempted t.writes) as_claimed) in
      ap
        (λ out.
          continue collated classifier out
            (λ s. work_through collated classifier turns (suc i) (map job_from_row rows) s))
        step
      ∙ rest

  pub settled_all-AllSettled :
      (db₀ : Database) (i : ℕ) (rows : List JobRow) (db : Database)
      → Distinct job_key rows
      → All (IsHeld db) rows
      → IsUsable turns i db
      → AllSettled db₀ (settled_all db₀ i rows db) i rows
  settled_all-AllSettled db₀ i [] db d held u = tt
  settled_all-AllSettled db₀ i (row ∷ rows) db d held u =
      let t = turns i in
      let r = outcome db₀ i row in
      let after = settled_db t row.id r row db in
      let new = u.fresh i (omega arith) in
      (
        settled_all-other_job db₀ (suc i) row.id rows after d.0
            ∙ settled-found t row.id db row held.0.found new r,
        settled_all-other_result db₀ (suc i) t.result_id rows after
              (λ j le. u.apart j i (λ e. omega (arith, e)))
            ∙ settled-saved t row.id db row held.0.found new r,
        settled_all-AllSettled db₀ (suc i) rows after d.1
            (settled_db-IsHeld i row r rows db d.0 held.1) (settled_db-IsUsable i row r db u),
      )
