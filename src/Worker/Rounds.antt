-- ===== src/Worker/Rounds.antt =====
-- What a round of the worker makes of all the jobs that it claims.
use incident_intelligence_pl.Prelude.{
  ℕ, suc, ◌≡◌, refl, ap, ◌≢◌, String, Bool, true, Option, some, List, [], ◌∷◌, All, map, length,
  arith,
}
use incident_intelligence_pl.Prelude.Keyed.{find_row, Distinct}
use incident_intelligence_pl.Failure.{Result, ok, up}
use incident_intelligence_pl.Database.{Database, JobRow, ClassificationResult}
use incident_intelligence_pl.Schemas.{EventBundle}
use incident_intelligence_pl.Jobs.{JobRecord, job_from_row}
use incident_intelligence_pl.Jobs.Repository.{job_key, owned_by}
use incident_intelligence_pl.Jobs.Claiming.{claim, claim_jobs}
use incident_intelligence_pl.Jobs.Tables.{IsValid}
use incident_intelligence_pl.Jobs.ClaimLoop.{
  claimed, claimed-InTable, select_claimable-Distinct, select_claimable-InTable,
}
use incident_intelligence_pl.Jobs.Claims.{swept, picked, after_claim, swept-Distinct, claim_jobs-ok}
use incident_intelligence_pl.Worker.{Turn, Counters, work_through, run_once}
use incident_intelligence_pl.Worker.Frame.{SameIncidents}
use incident_intelligence_pl.Worker.Passes.{
  IsHeld, IsUsable, AllSettled, counted_all, work_through_lem, settled_all-AllSettled,
  settled_all-other_job,
}

module _ (worker_id : String) (now : ℕ) (uuid4 : ℕ → ℕ) where
  claimed_rows-ne :
      (i j : ℕ) (sel : List JobRow)
      → All (λ r. r.id ≢ j) sel
      → All (λ r. r.id ≢ j) (claimed worker_id now uuid4 i sel)
  unfolding claimed claim
  claimed_rows-ne i j [] ne = tt
  claimed_rows-ne i j (r ∷ rs) ne = (ne.0, claimed_rows-ne (suc i) j rs ne.1)

  claimed-Distinct :
      (i : ℕ) (sel : List JobRow)
      → Distinct job_key sel
      → Distinct job_key (claimed worker_id now uuid4 i sel)
  unfolding claimed claim
  claimed-Distinct i [] d = tt
  claimed-Distinct i (r ∷ rs) d =
      (claimed_rows-ne (suc i) r.id rs d.0, claimed-Distinct (suc i) rs d.1)

  claimed-IsHeld :
      (i : ℕ) (sel : List JobRow) (db : Database)
      → All (λ r. find_row job_key r.id db.outbox_jobs ≡ some r) (claimed worker_id now uuid4 i sel)
      → All (IsHeld db) (claimed worker_id now uuid4 i sel)
  unfolding claimed
  claimed-IsHeld i [] db found = tt
  claimed-IsHeld i (r ∷ rs) db found = (
    record { found = found.0; token = uuid4 i; carries = unfold claim in refl; owned = holds i r },
    claimed-IsHeld (suc i) rs db found.1,
  )
    where
      holds : (i : ℕ) (r : JobRow) → owned_by (claim worker_id now (uuid4 i) r) (uuid4 i) ≡ true
      holds i r = unfold claim in ground arith

-- A round that could claim, from a valid table, while failures can be recorded and the results'
-- identifiers are new and differ, returns the number of its jobs. The i-th job that was claimed was
-- taken at the i-th turn: what its classification gave over the database as the claim left it has
-- settled its row, has been stored under the turn's identifier if it was a result, and has been
-- counted; the row of no other job has changed since the claim.
pub run_once-settles :
    (collated : String → String → Bool) (classifier : EventBundle → Result ClassificationResult)
    (worker_id : String) (batch_size now : ℕ) (uuid4 : ℕ → ℕ) (locked : ℕ → Bool) (turns : ℕ → Turn)
    (db db' : Database) (m : Option Counters) (records : List JobRecord)
    → IsValid db
    → IsUsable turns 0 db
    → claim_jobs up worker_id batch_size now uuid4 locked db ≡ (ok records, db')
    → let (answer, state) =
        run_once collated classifier up worker_id batch_size now uuid4 locked turns (db, m) in
      (answer ≡ ok (length records))
      × ((rows : List JobRow) × (records ≡ map job_from_row rows)
          × All (IsHeld db') rows
          × AllSettled collated classifier turns db' state.0 0 rows
          × (state.1 ≡ counted_all collated classifier turns db' 0 rows m)
          × ((j : ℕ)
              → All (λ r. r.id ≢ j) rows
              → find_row job_key j state.0.outbox_jobs ≡ find_row job_key j db'.outbox_jobs))
unfolding run_once
run_once-settles collated classifier worker_id batch_size now uuid4 locked turns db db' m records v
      u h =
    let (made, stored) = claim_jobs-ok worker_id batch_size now uuid4 locked db db' v h in
    let jobs = swept worker_id batch_size now uuid4 locked db in
    let sel = picked worker_id batch_size now uuid4 locked db in
    let rows = claimed worker_id now uuid4 0 sel in
    let d = swept-Distinct worker_id batch_size now uuid4 locked db v in
    let once = select_claimable-Distinct now batch_size locked jobs d in
    let final = after_claim worker_id batch_size now uuid4 locked db in
    let distinct = claimed-Distinct worker_id now uuid4 0 sel once in
    let held : All (IsHeld db') rows = rw stored (
      claimed-IsHeld worker_id now uuid4 0 sel final (
        claimed-InTable worker_id now uuid4 0 sel jobs once
          (select_claimable-InTable now batch_size locked jobs d))) in
    let usable : IsUsable turns 0 db' =
      rw stored (record { reports = u.reports; fresh = u.fresh; apart = u.apart }) in
    let same : SameIncidents db' db' = record {
      incidents = refl;
      tickets = refl;
      evidence = refl;
    } in
    let through =
      work_through_lem collated classifier turns db' 0 rows db' m same distinct held usable in
    rw (h, ap (λ xs. work_through collated classifier turns 0 xs (db', m)) made, through)
      (
        refl,
        (
          rows,
          made,
          held,
          settled_all-AllSettled collated classifier turns db' 0 rows db' distinct held usable,
          refl,
          λ j ne. settled_all-other_job collated classifier turns db' 0 j rows db' ne,
        ),
      )
