-- ===== src/Jobs/Leases.antt =====
-- Leases: `claim_jobs` neither hands out nor changes a job that is not due to it, so a job that one
-- worker holds is not handed to another before the lease has run out.
use mathlib.Core.Bool.{false≢true}
use incident_intelligence_pl.Prelude.{
  ℕ, ◌+◌, ◌<◌, ◌≡◌, ◌≢◌, sym, ◌∙◌, Bool, true, false, String, some, List, arith, All, subst, ◌⊎◌,
  inl, inr, Bool-cases, ◌||◌, ap,
}
use incident_intelligence_pl.Prelude.Keyed
use incident_intelligence_pl.Prelude.Keyed.{find_row}
use incident_intelligence_pl.Failure.{ok, up, Availability, engine_begin-keeps}
use incident_intelligence_pl.Database.{Database, JobRow}
use incident_intelligence_pl.Jobs.{
  JobRecord, is_processing, is_completed, is_failed, job_claim_lease,
}
use incident_intelligence_pl.Jobs.Repository.{job_key}
use incident_intelligence_pl.Jobs.Claiming.{
  claimable, expire_abandoned, claim_body, claim_jobs, bad_worker_id, bad_limit,
}
use incident_intelligence_pl.Jobs.Tables.{IsValid}
use incident_intelligence_pl.Jobs.ClaimLoop.{
  expire_abandoned-KeepsId, find_row-claim_all_ne, claimed-ne, select_claimable-claimable,
  select_claimable-InTable,
}
use incident_intelligence_pl.Jobs.Claims.{
  swept, picked, after_claim, swept-Distinct, claim_body_lem, claim_jobs-ok,
}

-- The call has nothing to do with this row: it is neither swept nor claimable.
pub record IsPassed (now : ℕ) (r : JobRow) : Type 0 where
  pub kept : expire_abandoned now r ≡ r
  pub not_due : claimable now r ≡ false

module _ (worker_id : String) (limit now : ℕ) (uuid4 : ℕ → ℕ) (locked : ℕ → Bool)
    (db : Database) where
  picked-ne :
      (j : ℕ) (r : JobRow)
      → IsValid db
      → find_row job_key j db.outbox_jobs ≡ some r
      → IsPassed now r
      → All (λ s. s.id ≢ j) (picked worker_id limit now uuid4 locked db)
  picked-ne j r v found p =
      let jobs = swept worker_id limit now uuid4 locked db in
      let here : find_row job_key j jobs ≡ some r =
        Keyed.find_row-map job_key j (expire_abandoned now) db.outbox_jobs r
          (expire_abandoned-KeepsId now) found
        ∙ ap some p.kept in
      let P : JobRow → Type 0 = λ s. claimable now s ≡ true in
      let Q : JobRow → Type 0 = λ s. find_row job_key s.id jobs ≡ some s in
      Keyed.All-imp (λ s. P s × Q s) (λ s. s.id ≢ j) (picked worker_id limit now uuid4 locked db)
        (λ s h e. clash s h.0 (sym (h.1) ∙ ap (λ k. find_row job_key k jobs) e ∙ here))
        (Keyed.All-and P Q (picked worker_id limit now uuid4 locked db)
          (select_claimable-claimable now limit locked jobs)
          (select_claimable-InTable now limit locked jobs
            (swept-Distinct worker_id limit now uuid4 locked db v)))
    where
      clash : (s : JobRow) → claimable now s ≡ true → some s ≡ some r → ⊥
      clash s c e =
          let same : s ≡ r = cc in false≢true (sym p.not_due ∙ ap (claimable now) (sym same) ∙ c)

  -- Such a row stands in the table as before.
  pub find_row-after_claim :
      (j : ℕ) (r : JobRow)
      → IsValid db
      → find_row job_key j db.outbox_jobs ≡ some r
      → IsPassed now r
      → find_row job_key j (after_claim worker_id limit now uuid4 locked db).outbox_jobs ≡ some r
  find_row-after_claim j r v found p =
      find_row-claim_all_ne worker_id now uuid4 0 j _ _ (picked-ne j r v found p)
      ∙ Keyed.find_row-map job_key j (expire_abandoned now) db.outbox_jobs r
          (expire_abandoned-KeepsId now) found
      ∙ ap some p.kept

-- So it does after the call, whatever the arguments and the database do.
pub find_row-claim_jobs :
    (a : Availability) (worker_id : String) (limit now : ℕ) (uuid4 : ℕ → ℕ) (locked : ℕ → Bool)
    (db : Database) (j : ℕ) (r : JobRow)
    → IsValid db
    → find_row job_key j db.outbox_jobs ≡ some r
    → IsPassed now r
    → find_row job_key j (claim_jobs a worker_id limit now uuid4 locked db).1.outbox_jobs ≡ some r
unfolding claim_jobs
find_row-claim_jobs a worker_id limit now uuid4 locked db j r v found p =
    elim (Bool-cases (bad_worker_id worker_id || bad_limit limit)) [
      | inl e ↦ rw e found
      | inr e ↦ rw e (
          engine_begin-keeps (λ d. find_row job_key j d.outbox_jobs ≡ some r) a
            (claim_body worker_id limit now uuid4 locked) db found
            (λ rows db' h.
              let stored : after_claim worker_id limit now uuid4 locked db ≡ db' =
                cc (claim_body_lem worker_id limit now uuid4 locked db v) in
              rw (← stored)
                (find_row-after_claim worker_id limit now uuid4 locked db j r v found p)))
    ]

-- A worker still holds the job.
pub held-IsPassed :
    (now t : ℕ) (r : JobRow)
    → is_processing r.state ≡ true
    → r.claimed_at ≡ some t
    → now < t + job_claim_lease
    → IsPassed now r
unfolding expire_abandoned
held-IsPassed now t r p c h = ground arith

-- A completed or failed job is never due.
pub finished-IsPassed :
    (now : ℕ) (r : JobRow)
    → (is_completed r.state ≡ true) ⊎ (is_failed r.state ≡ true)
    → IsPassed now r
unfolding expire_abandoned
finished-IsPassed now r h = ground arith

-- While the lease on a job lasts, no call of `claim_jobs` that succeeds hands the job out again,
-- by whichever worker and with whichever arguments, and the job's row stays as it is.
pub claim_jobs-respects_lease :
    (worker_id : String) (limit now : ℕ) (uuid4 : ℕ → ℕ) (locked : ℕ → Bool) (db db' : Database)
    (job_id t : ℕ) (r : JobRow) (records : List JobRecord)
    → IsValid db
    → find_row job_key job_id db.outbox_jobs ≡ some r
    → is_processing r.state ≡ true
    → r.claimed_at ≡ some t
    → now < t + job_claim_lease
    → claim_jobs up worker_id limit now uuid4 locked db ≡ (ok records, db')
    → All (λ record'. record'.job_id ≢ job_id) records
      × (find_row job_key job_id db'.outbox_jobs ≡ some r)
claim_jobs-respects_lease worker_id limit now uuid4 locked db db' job_id t r records v found p c h
      done =
    let (made, stored) = claim_jobs-ok worker_id limit now uuid4 locked db db' v done in
    let passed = held-IsPassed now t r p c h in
    (
      subst (All (λ x. x.job_id ≢ job_id)) (sym made) (
          claimed-ne worker_id now uuid4 0 job_id _
            (picked-ne worker_id limit now uuid4 locked db job_id r v found passed)),
      rw stored (find_row-after_claim worker_id limit now uuid4 locked db job_id r v found passed),
    )
