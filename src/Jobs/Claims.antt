-- ===== src/Jobs/Claims.antt =====
-- What `claim_jobs` hands out and what it leaves alone.
use incident_intelligence_pl.Prelude.{
  ℕ, ◌≡◌, sym, ◌∙◌, Bool, true, false, ◌||◌, String, List, arith, Bool-cases, inl, inr, map, subst,
}
use incident_intelligence_pl.Prelude.Keyed
use incident_intelligence_pl.Prelude.Keyed.{find_row, Distinct}
use incident_intelligence_pl.Failure.{ok, err, value_error, Availability, up, engine_begin-keeps}
use incident_intelligence_pl.Database.{Database, JobRow}
use incident_intelligence_pl.Jobs.{JobRecord, job_from_row}
use incident_intelligence_pl.Jobs.Repository.{job_key}
use incident_intelligence_pl.Jobs.Claiming.{
  expire_abandoned, claim_body, claim_jobs, select_claimable, bad_worker_id, bad_limit,
}
use incident_intelligence_pl.Jobs.Invariant.{WellFormed, expire_abandoned-WellFormed}
use incident_intelligence_pl.Jobs.Tables.{IsValid}
use incident_intelligence_pl.Jobs.ClaimLoop.{
  expire_abandoned-KeepsId, claimed, claim_all, claim_each_lem, Distinct-claim_all,
  claim_all-WellFormed, select_claimable-claimable, select_claimable-Distinct,
  select_claimable-InTable,
}

module _ (worker_id : String) (limit now : ℕ) (uuid4 : ℕ → ℕ) (locked : ℕ → Bool)
    (db : Database) where
  -- The table after the first `UPDATE`, the rows that the `SELECT` picks, and the final table.
  abbrev pub swept : List JobRow
  swept = map (expire_abandoned now) db.outbox_jobs

  abbrev pub picked : List JobRow
  picked = select_claimable now limit locked swept

  abbrev pub after_claim : Database
  after_claim = record db { outbox_jobs = claim_all worker_id now uuid4 0 picked swept }

  pub swept-Distinct : IsValid db → Distinct job_key swept
  swept-Distinct v =
      Keyed.Distinct-map job_key (expire_abandoned now) db.outbox_jobs
        (expire_abandoned-KeepsId now) v.distinct

  pub claim_body_lem :
      IsValid db
      → claim_body worker_id limit now uuid4 locked db
        ≡ ok (claimed worker_id now uuid4 0 picked, after_claim)
  unfolding claim_body
  claim_body_lem v =
      let d = swept-Distinct v in
      rw (
        claim_each_lem worker_id now uuid4 0 picked swept
          (select_claimable-Distinct now limit locked swept d)
          (select_claimable-InTable now limit locked swept d))

  pub after_claim-IsValid : IsValid db → IsValid after_claim
  after_claim-IsValid v =
      let d = swept-Distinct v in
      record {
        rows =
            claim_all-WellFormed worker_id now uuid4 0 picked swept
              (select_claimable-Distinct now limit locked swept d) d
              (select_claimable-InTable now limit locked swept d)
              (select_claimable-claimable now limit locked swept)
              (Keyed.All-map job_key WellFormed (expire_abandoned now) db.outbox_jobs
                (expire_abandoned-WellFormed now) v.rows);
        distinct = Distinct-claim_all worker_id now uuid4 0 picked swept d;
      }

  -- The outcome of a call with good arguments while the database answers.
  pub claim_jobs_lem :
      IsValid db
      → (bad_worker_id worker_id || bad_limit limit) ≡ false
      → claim_jobs up worker_id limit now uuid4 locked db
        ≡ (ok (map job_from_row (claimed worker_id now uuid4 0 picked)), after_claim)
  unfolding claim_jobs
  claim_jobs_lem v good = rw (good, claim_body_lem v)

-- Bad arguments are refused before the database is asked.
pub claim_jobs_bad :
    (worker_id : String) (limit now : ℕ) (uuid4 : ℕ → ℕ) (locked : ℕ → Bool) (db : Database)
    → (bad_worker_id worker_id || bad_limit limit) ≡ true
    → claim_jobs up worker_id limit now uuid4 locked db ≡ (err value_error, db)
unfolding claim_jobs
claim_jobs_bad worker_id limit now uuid4 locked db bad = rw bad

pub claim_jobs-IsValid :
    (a : Availability) (worker_id : String) (limit now : ℕ) (uuid4 : ℕ → ℕ) (locked : ℕ → Bool)
    (db : Database)
    → IsValid db
    → IsValid (claim_jobs a worker_id limit now uuid4 locked db).1
unfolding claim_jobs
claim_jobs-IsValid a worker_id limit now uuid4 locked db v =
    elim (Bool-cases (bad_worker_id worker_id || bad_limit limit)) [
      | inl e ↦ rw e v
      | inr e ↦ rw e (
          engine_begin-keeps IsValid a (claim_body worker_id limit now uuid4 locked) db v
            (λ rows db' h.
              let stored : after_claim worker_id limit now uuid4 locked db ≡ db' =
                cc (claim_body_lem worker_id limit now uuid4 locked db v) in
              subst IsValid stored (after_claim-IsValid worker_id limit now uuid4 locked db v)))
    ]

-- A call that succeeded had good arguments, and its outcome is the one above.
pub claim_jobs-ok :
    (worker_id : String) (limit now : ℕ) (uuid4 : ℕ → ℕ) (locked : ℕ → Bool) (db db' : Database)
    {records : List JobRecord}
    → IsValid db
    → claim_jobs up worker_id limit now uuid4 locked db ≡ (ok records, db')
    → (records
        ≡ map job_from_row
            (claimed worker_id now uuid4 0 (picked worker_id limit now uuid4 locked db)))
      × (db' ≡ after_claim worker_id limit now uuid4 locked db)
claim_jobs-ok worker_id limit now uuid4 locked db db' {records} v h =
    elim (Bool-cases (bad_worker_id worker_id || bad_limit limit)) [
      | inl e ↦ absurd (refused e)
      | inr e ↦
          let same = sym h ∙ claim_jobs_lem worker_id limit now uuid4 locked db v e in
          (ground (arith, same), ground (arith, same))
    ]
  where
    refused : (bad_worker_id worker_id || bad_limit limit) ≡ true → ⊥
    refused e = ground (arith, claim_jobs_bad worker_id limit now uuid4 locked db e)
