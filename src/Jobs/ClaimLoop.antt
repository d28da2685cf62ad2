-- ===== src/Jobs/ClaimLoop.antt =====
-- The claiming loop against its effect: which rows it returns, and what the table holds after it.
use incident_intelligence_pl.Prelude.{
  ℕ, suc, ◌≡◌, refl, sym, ◌≢◌, Bool, true, false, String, some, List, [], ◌∷◌, arith, All, map,
  length, ap, ◌∙◌, not, filter_by, sort_by, ◌≤◌, length-take-le,
}
use incident_intelligence_pl.Prelude.Keyed
use incident_intelligence_pl.Prelude.Keyed.{find_row, update_row, Distinct}
use incident_intelligence_pl.Failure.{ok}
use incident_intelligence_pl.Database.{JobRow}
use incident_intelligence_pl.Jobs.{job_from_row}
use incident_intelligence_pl.Jobs.Repository.{job_key}
use incident_intelligence_pl.Jobs.Claiming.{
  claimable, claim, claim_each, expire_abandoned, select_claimable, due_before,
}
use incident_intelligence_pl.Jobs.Invariant.{WellFormed, claim-WellFormed}
use incident_intelligence_pl.Jobs.Outcomes.{KeepsId}

pub claim-KeepsId : (worker_id : String) (now token : ℕ) → KeepsId (claim worker_id now token)
unfolding claim
claim-KeepsId worker_id now token r = refl

pub expire_abandoned-KeepsId : (now : ℕ) → KeepsId (expire_abandoned now)
unfolding expire_abandoned
expire_abandoned-KeepsId now r = ground arith

module _ (worker_id : String) (now : ℕ) (uuid4 : ℕ → ℕ) where
  -- The rows that the loop returns.
  unfoldable pub claimed : ℕ → List JobRow → List JobRow
  claimed i [] = []
  claimed i (r ∷ rs) = claim worker_id now (uuid4 i) r ∷ claimed (suc i) rs

  -- The table that it leaves.
  unfoldable pub claim_all : ℕ → List JobRow → List JobRow → List JobRow
  claim_all i [] jobs = jobs
  claim_all i (r ∷ rs) jobs =
      claim_all (suc i) rs (update_row job_key r.id (claim worker_id now (uuid4 i)) jobs)

  -- The rows are what the table holds under their identifiers.
  abbrev pub InTable : List JobRow → List JobRow → Type 0
  InTable jobs = All (λ r. find_row job_key r.id jobs ≡ some r)

  InTable-update :
      (job_id token : ℕ) (jobs rs : List JobRow)
      → All (λ r. r.id ≢ job_id) rs
      → InTable jobs rs
      → InTable (update_row job_key job_id (claim worker_id now token) jobs) rs
  InTable-update job_id token jobs [] ne h = tt
  InTable-update job_id token jobs (r ∷ rs) ne h = (
    Keyed.find_row-update_row_ne job_key r.id job_id (claim worker_id now token) jobs
          (claim-KeepsId worker_id now token) ne.0
        ∙ h.0,
    InTable-update job_id token jobs rs ne.1 h.1,
  )

  pub claim_each_lem :
      (i : ℕ) (sel jobs : List JobRow)
      → Distinct job_key sel
      → InTable jobs sel
      → claim_each worker_id now uuid4 i (map job_key sel) jobs
        ≡ ok (claimed i sel, claim_all i sel jobs)
  unfolding claim_each claimed claim_all
  claim_each_lem i [] jobs d h = refl
  claim_each_lem i (r ∷ rs) jobs d h =
      let jobs' = update_row job_key r.id (claim worker_id now (uuid4 i)) jobs in
      let hit =
        Keyed.find_row-update_row_self job_key r.id (claim worker_id now (uuid4 i)) jobs r
          (claim-KeepsId worker_id now (uuid4 i)) h.0 in
      rw hit
        (rw (claim_each_lem (suc i) rs jobs' d.1 (InTable-update r.id (uuid4 i) jobs rs d.0 h.1)))

  -- A job that was not selected is left alone.
  pub find_row-claim_all_ne :
      (i j : ℕ) (sel jobs : List JobRow)
      → All (λ r. r.id ≢ j) sel
      → find_row job_key j (claim_all i sel jobs) ≡ find_row job_key j jobs
  unfolding claim_all
  find_row-claim_all_ne i j [] jobs ne = refl
  find_row-claim_all_ne i j (r ∷ rs) jobs ne =
      find_row-claim_all_ne (suc i) j rs _ ne.1
      ∙ Keyed.find_row-update_row_ne job_key j r.id (claim worker_id now (uuid4 i)) jobs
          (claim-KeepsId worker_id now (uuid4 i)) (λ e. ne.0 (sym e))

  -- A selected job is in the table as the loop returned it.
  pub claimed-InTable :
      (i : ℕ) (sel jobs : List JobRow)
      → Distinct job_key sel
      → InTable jobs sel
      → InTable (claim_all i sel jobs) (claimed i sel)
  unfolding claimed claim_all claim
  claimed-InTable i [] jobs d h = tt
  claimed-InTable i (r ∷ rs) jobs d h = (
    (find_row-claim_all_ne (suc i) r.id rs _ d.0
        ∙ Keyed.find_row-update_row_self job_key r.id (claim worker_id now (uuid4 i)) jobs r
            (claim-KeepsId worker_id now (uuid4 i)) h.0),
    claimed-InTable (suc i) rs _ d.1 (InTable-update r.id (uuid4 i) jobs rs d.0 h.1),
  )

  pub Distinct-claim_all :
      (i : ℕ) (sel jobs : List JobRow)
      → Distinct job_key jobs
      → Distinct job_key (claim_all i sel jobs)
  unfolding claim_all
  Distinct-claim_all i [] jobs d = d
  Distinct-claim_all i (r ∷ rs) jobs d = Distinct-claim_all (suc i) rs _ (
      Keyed.Distinct-update_row job_key r.id (claim worker_id now (uuid4 i)) jobs
        (claim-KeepsId worker_id now (uuid4 i)) d)

  pub claim_all-WellFormed :
      (i : ℕ) (sel jobs : List JobRow)
      → Distinct job_key sel
      → Distinct job_key jobs
      → InTable jobs sel
      → All (λ r. claimable now r ≡ true) sel
      → All WellFormed jobs
      → All WellFormed (claim_all i sel jobs)
  unfolding claim_all
  claim_all-WellFormed i [] jobs d e h c w = w
  claim_all-WellFormed i (r ∷ rs) jobs d e h c w =
      claim_all-WellFormed (suc i) rs _ d.1
        (Keyed.Distinct-update_row job_key r.id (claim worker_id now (uuid4 i)) jobs
          (claim-KeepsId worker_id now (uuid4 i)) e)
        (InTable-update r.id (uuid4 i) jobs rs d.0 h.1) c.1
        (Keyed.All-update_found job_key WellFormed r.id (claim worker_id now (uuid4 i)) jobs e h.0
          (claim-WellFormed worker_id now (uuid4 i) r
            (Keyed.All-find_row job_key WellFormed r.id jobs r w h.0) c.0)
          w)

  -- The loop returns no job but those selected.
  pub claimed-ne :
      (i j : ℕ) (sel : List JobRow)
      → All (λ r. r.id ≢ j) sel
      → All (λ r. r.job_id ≢ j) (map job_from_row (claimed i sel))
  unfolding claimed claim job_from_row
  claimed-ne i j [] ne = tt
  claimed-ne i j (r ∷ rs) ne = (ne.0, claimed-ne (suc i) j rs ne.1)

  pub length-claimed : (i : ℕ) (sel : List JobRow) → length (claimed i sel) ≡ length sel
  unfolding claimed
  length-claimed i [] = refl
  length-claimed i (r ∷ rs) = ap suc (length-claimed (suc i) rs)

-- What the `SELECT` picks out of a table with a primary key.
module _ (now limit : ℕ) (locked : ℕ → Bool) (jobs : List JobRow) where
  abbrev due : List JobRow
  due = sort_by due_before (filter_by (claimable now) jobs)

  abbrev unlocked : JobRow → Bool
  unlocked r = not (locked r.id)

  pub select_claimable-claimable :
      All (λ r. claimable now r ≡ true) (select_claimable now limit locked jobs)
  unfolding select_claimable
  select_claimable-claimable =
      Keyed.All-take (λ r. claimable now r ≡ true) limit _
        (Keyed.All-filter_by (λ r. claimable now r ≡ true) unlocked due
          (Keyed.All-sort_by (λ r. claimable now r ≡ true) due_before _
            (Keyed.filter_by-holds (claimable now) jobs)))

  pub select_claimable-unlocked :
      All (λ r. locked r.id ≡ false) (select_claimable now limit locked jobs)
  unfolding select_claimable
  select_claimable-unlocked =
      Keyed.All-take (λ r. locked r.id ≡ false) limit _
        (Keyed.All-imp (λ r. not (locked r.id) ≡ true) (λ r. locked r.id ≡ false)
          (filter_by unlocked due) (λ r h. ground arith) (Keyed.filter_by-holds unlocked due))

  pub length-select_claimable : length (select_claimable now limit locked jobs) ≤ limit
  unfolding select_claimable
  length-select_claimable = length-take-le limit (filter_by unlocked due)

  pub select_claimable-Distinct :
      Distinct job_key jobs → Distinct job_key (select_claimable now limit locked jobs)
  unfolding select_claimable
  select_claimable-Distinct d = Keyed.Distinct-take job_key limit _ (
      Keyed.Distinct-filter_by job_key unlocked due (
        Keyed.Distinct-sort_by job_key due_before _
          (Keyed.Distinct-filter_by job_key (claimable now) jobs d)))

  pub select_claimable-InTable :
      Distinct job_key jobs
      → All (λ r. find_row job_key r.id jobs ≡ some r) (select_claimable now limit locked jobs)
  unfolding select_claimable
  select_claimable-InTable d =
      let P : JobRow → Type 0 = λ r. find_row job_key r.id jobs ≡ some r in
      Keyed.All-take P limit _ (
        Keyed.All-filter_by P unlocked due (
          Keyed.All-sort_by P due_before _
            (Keyed.All-filter_by P (claimable now) jobs (Keyed.Distinct-found job_key jobs d))))
