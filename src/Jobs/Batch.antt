-- ===== src/Jobs/Batch.antt =====
-- What `claim_jobs` returns: each record against the job's row before and after the call.
use incident_intelligence_pl.Prelude.{
  ℕ, suc, ◌+◌, ◌≤◌, ◌≡◌, refl, sym, ◌∙◌, ap, Bool, true, false, String, some, List, [], ◌∷◌, arith,
  All, map, subst, length,
}
use incident_intelligence_pl.Prelude.Keyed
use incident_intelligence_pl.Prelude.Keyed.{find_row}
use incident_intelligence_pl.Failure.{ok, up}
use incident_intelligence_pl.Database.{Database, JobRow, processing}
use incident_intelligence_pl.Jobs.{JobRecord, job_from_row}
use incident_intelligence_pl.Jobs.Repository.{job_key}
use incident_intelligence_pl.Jobs.Claiming.{claimable, claim, expire_abandoned, claim_jobs}
use incident_intelligence_pl.Jobs.Tables.{IsValid}
use incident_intelligence_pl.Jobs.ClaimLoop.{
  expire_abandoned-KeepsId, claimed, claimed-InTable, length-claimed, select_claimable-claimable,
  select_claimable-unlocked, select_claimable-Distinct, select_claimable-InTable,
  length-select_claimable,
}
use incident_intelligence_pl.Jobs.Claims.{swept, picked, after_claim, swept-Distinct, claim_jobs-ok}

-- The record tells of a job that was due and that no other transaction had locked; the worker now
-- holds it with one more attempt counted, and the table holds just what the record says.
pub record IsHandedOut (worker_id : String) (now : ℕ) (locked : ℕ → Bool) (db db' : Database)
    (x : JobRecord) : Type 0 where
  pub before : JobRow
  pub found : find_row job_key x.job_id db.outbox_jobs ≡ some before
  pub was_due : claimable now before ≡ true
  pub was_free : locked x.job_id ≡ false
  pub attempt : x.attempt_count ≡ before.attempt_count + 1
  pub limit_kept : x.max_attempts ≡ before.max_attempts
  pub state : x.state ≡ processing
  pub claimed_at : x.claimed_at ≡ some now
  pub claimed_by : x.claimed_by ≡ some worker_id
  pub after : JobRow
  pub stored : find_row job_key x.job_id db'.outbox_jobs ≡ some after
  pub record_lem : x ≡ job_from_row after

-- A row that is due after the sweep was not changed by it.
due_unswept :
    (now : ℕ) (r : JobRow)
    → claimable now (expire_abandoned now r) ≡ true
    → (expire_abandoned now r ≡ r) × (claimable now r ≡ true)
unfolding expire_abandoned
due_unswept now r h = ground arith

module _ (worker_id : String) (now : ℕ) (uuid4 : ℕ → ℕ) (locked : ℕ → Bool)
    (db db' : Database) where
  handed :
      (token : ℕ) (r : JobRow)
      → find_row job_key r.id (map (expire_abandoned now) db.outbox_jobs) ≡ some r
      → claimable now r ≡ true
      → locked r.id ≡ false
      → find_row job_key r.id db'.outbox_jobs ≡ some (claim worker_id now token r)
      → IsHandedOut worker_id now locked db db' (job_from_row (claim worker_id now token r))
  unfolding claim job_from_row
  handed token r found due free stored =
      let (r₀, found₀, swept₀) =
        Keyed.find_row-map_inv job_key r.id (expire_abandoned now) db.outbox_jobs
          (expire_abandoned-KeepsId now) found in
      let (same, due₀) =
        due_unswept now r₀ (subst (λ x. claimable now x ≡ true) (sym swept₀) due) in
      let eq : r₀ ≡ r = sym same ∙ swept₀ in
      record {
        before = r;
        found = found₀ ∙ ap some eq;
        was_due = due;
        was_free = free;
        attempt = refl;
        limit_kept = refl;
        state = refl;
        claimed_at = refl;
        claimed_by = refl;
        after = claim worker_id now token r;
        stored = stored;
        record_lem = refl;
      }

  All-handed :
      (i : ℕ) (sel : List JobRow)
      → All (λ r. find_row job_key r.id (map (expire_abandoned now) db.outbox_jobs) ≡ some r) sel
      → All (λ r. claimable now r ≡ true) sel
      → All (λ r. locked r.id ≡ false) sel
      → All
          (λ r. find_row job_key r.id db'.outbox_jobs ≡ some r)
          (claimed worker_id now uuid4 i sel)
      → All
          (IsHandedOut worker_id now locked db db')
          (map job_from_row (claimed worker_id now uuid4 i sel))
  unfolding claimed
  All-handed i [] f c u s = tt
  All-handed i (r ∷ rs) f c u s =
      (handed (uuid4 i) r f.0 c.0 u.0 (unfold claim in s.0), All-handed (suc i) rs f.1 c.1 u.1 s.1)

pub length-map {ℓ κ} :
    {A : Type ℓ} {B : Type κ} (f : A → B) (xs : List A) → length (map f xs) ≡ length xs
length-map f [] = refl
length-map f (x ∷ xs) = ap suc (length-map f xs)

-- A successful call returns at most `limit` records, and each tells of a job that was due, that no
-- other transaction had locked, and that now is in process, held by this worker since `now`, with
-- exactly one more attempt counted; the table holds exactly what the record says.
pub claim_jobs-IsHandedOut :
    (worker_id : String) (limit now : ℕ) (uuid4 : ℕ → ℕ) (locked : ℕ → Bool) (db db' : Database)
    (records : List JobRecord)
    → IsValid db
    → claim_jobs up worker_id limit now uuid4 locked db ≡ (ok records, db')
    → (length records ≤ limit) × All (IsHandedOut worker_id now locked db db') records
claim_jobs-IsHandedOut worker_id limit now uuid4 locked db db' records v h =
    let (made, stored) = claim_jobs-ok worker_id limit now uuid4 locked db db' v h in
    let jobs = swept worker_id limit now uuid4 locked db in
    let sel = picked worker_id limit now uuid4 locked db in
    let d = swept-Distinct worker_id limit now uuid4 locked db v in
    let table = select_claimable-InTable now limit locked jobs d in
    (
      rw made (
          omega (
            arith,
            length-map job_from_row (claimed worker_id now uuid4 0 sel),
            length-claimed worker_id now uuid4 0 sel,
            length-select_claimable now limit locked jobs,
          )),
      rw (made, stored)
          (All-handed worker_id now uuid4 locked db
            (after_claim worker_id limit now uuid4 locked db) 0 sel table
            (select_claimable-claimable now limit locked jobs)
            (select_claimable-unlocked now limit locked jobs)
            (claimed-InTable worker_id now uuid4 0 sel jobs
              (select_claimable-Distinct now limit locked jobs d) table)),
    )
