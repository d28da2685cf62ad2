-- ===== src/Jobs/Fairness.antt =====
-- The order in which jobs are handed out: none that is due is passed over for a later one.
use incident_intelligence_pl.Prelude.{
  ℕ, suc, ◌≤◌, ◌≡◌, refl, sym, ◌∙◌, ap, Bool, true, false, not, ◌⊎◌, inl, inr, String, List, [],
  ◌∷◌, arith, All, map, subst, length, sort_by, filter_by,
}
use incident_intelligence_pl.Prelude.Ordered.{
  In, IsOrder, In-map, In-filter_by, In-sort_by, Sorted-sort_by, Sorted-filter_by, take-cut,
}
use incident_intelligence_pl.Failure.{ok, up}
use incident_intelligence_pl.Database.{Database, JobRow}
use incident_intelligence_pl.Jobs.{JobRecord, job_from_row}
use incident_intelligence_pl.Jobs.Claiming.{
  claimable, claim, expire_abandoned, claim_jobs, select_claimable, due_before,
}
use incident_intelligence_pl.Jobs.Tables.{IsValid}
use incident_intelligence_pl.Jobs.ClaimLoop.{claimed, length-claimed}
use incident_intelligence_pl.Jobs.Claims.{swept, claim_jobs-ok}
use incident_intelligence_pl.Jobs.Batch.{length-map}

due_before-IsOrder : IsOrder due_before
due_before-IsOrder = record { trans = λ x y z h k. ground arith; total = λ x y h. ground arith }

-- A due row stays as it is in the sweep.
due_kept : (now : ℕ) (r : JobRow) → claimable now r ≡ true → expire_abandoned now r ≡ r
unfolding expire_abandoned
due_kept now r h = ground arith

module _ (worker_id : String) (now : ℕ) (uuid4 : ℕ → ℕ) where
  -- The loop returns a record for each row that it is given.
  record_of :
      (i : ℕ) (r : JobRow) (sel : List JobRow)
      → In r sel
      → (x : JobRecord) × In x (map job_from_row (claimed worker_id now uuid4 i sel))
        × (x.job_id ≡ r.id)
  unfolding claimed claim job_from_row
  record_of i r [] m = absurd m
  record_of i r (s ∷ sel) (inl e) =
      (job_from_row (claim worker_id now (uuid4 i) s), inl refl, ap (λ (y : JobRow). y.id) (sym e))
  record_of i r (s ∷ sel) (inr m) =
      let (x, here, same) = record_of (suc i) r sel m in (x, inr here, same)

  none_later :
      (i : ℕ) (r : JobRow) (sel : List JobRow)
      → All (λ y. due_before y r ≡ true) sel
      → All
          (λ x. x.next_attempt_at ≤ r.next_attempt_at)
          (map job_from_row (claimed worker_id now uuid4 i sel))
  unfolding claimed claim job_from_row
  none_later i r [] h = tt
  none_later i r (s ∷ sel) h = (ground (arith, h.0), none_later (suc i) r sel h.1)

-- A successful call passes over no due job that is free: the job is among those handed out, or
-- the batch is full and no job in it fell due later.
pub claim_jobs-oldest_first :
    (worker_id : String) (limit now : ℕ) (uuid4 : ℕ → ℕ) (locked : ℕ → Bool) (db db' : Database)
    (records : List JobRecord) (r : JobRow)
    → IsValid db
    → claim_jobs up worker_id limit now uuid4 locked db ≡ (ok records, db')
    → In r db.outbox_jobs
    → claimable now r ≡ true
    → locked r.id ≡ false
    → ((x : JobRecord) × In x records × (x.job_id ≡ r.id))
      ⊎ ((length records ≡ limit) × All (λ x. x.next_attempt_at ≤ r.next_attempt_at) records)
claim_jobs-oldest_first worker_id limit now uuid4 locked db db' records r v h here due free =
    let (made, stored) = claim_jobs-ok worker_id limit now uuid4 locked db db' v h in
    let jobs = swept worker_id limit now uuid4 locked db in
    let there : In r jobs =
      subst (λ s. In s jobs) (due_kept now r due)
        (In-map (expire_abandoned now) r db.outbox_jobs here) in
    let sorted = sort_by due_before (filter_by (claimable now) jobs) in
    let open' = λ (s : JobRow). not (locked s.id) in
    let listed : In r (filter_by open' sorted) = In-filter_by open' r sorted (rw free) (
      In-sort_by due_before r (filter_by (claimable now) jobs)
        (In-filter_by (claimable now) r jobs due there)) in
    let ordered =
      Sorted-filter_by due_before open' sorted
        (Sorted-sort_by due_before due_before-IsOrder (filter_by (claimable now) jobs)) in
    unfold select_claimable in
    elim (take-cut due_before limit r (filter_by open' sorted) ordered listed) [
      | inl in_batch ↦ rw made (inl (record_of worker_id now uuid4 0 r _ in_batch))
      | inr (full, earlier) ↦ rw made (
          inr (
            length-map job_from_row _ ∙ length-claimed worker_id now uuid4 0 _ ∙ full,
            none_later worker_id now uuid4 0 r _ earlier,
          ))
    ]
