-- ===== src/Correlation/Best.antt =====
-- Without an exact match the best candidate wins, if it is good enough.
use incident_intelligence_pl.Prelude.{
  ℕ, ◌+◌, ◌≤◌, ◌≡◌, refl, ap, ◌∙◌, ◌⊎◌, true, false, none, some, List, map, arith, All, sort_by,
  ltb, if◌then◌else◌, inl, inr,
}
use incident_intelligence_pl.Prelude.Ordered.{In, In-map, In-sort_by, Sorted-sort_by, All-In}
use incident_intelligence_pl.Prelude.Unique.{
  first, first-least, filter_by-none, map-In, sort_by-In, All-of,
}
use incident_intelligence_pl.Failure.{ok}
use incident_intelligence_pl.Schemas.{EventBundle}
use incident_intelligence_pl.Correlation.{
  IncidentFingerprint, CorrelationResult, Scored, observed_range, users_meet, services_meet,
  times_meet, scored, by_score, accept_best, accept_exact, is_exact, correlate_bundle,
}
use incident_intelligence_pl.Correlation.Order.{by_score-IsOrder, score_all-ok}

-- The points of a candidate.
unfoldable pub points : EventBundle → ℕ → ℕ → ℕ → IncidentFingerprint → ℕ
points bundle w start end c =
    (if users_meet bundle c then 45 else 0)
    + (if services_meet bundle c then 25 else 0)
    + (if times_meet w start end c then 20 else 0)

scored-points :
    (bundle : EventBundle) (w start end : ℕ) (c : IncidentFingerprint)
    → (scored bundle w start end c).score ≡ points bundle w start end c
unfolding scored points
scored-points bundle w start end c = ground arith

scored-candidate :
    (bundle : EventBundle) (w start end : ℕ) (c : IncidentFingerprint)
    → (scored bundle w start end c).candidate ≡ c
unfolding scored
scored-candidate bundle w start end c = refl

by_score-le : (s t : Scored) → (t ≡ s) ⊎ (by_score s t ≡ true) → t.score ≤ s.score
by_score-le s t (inl e) = let k : t.score ≡ s.score = ap (λ u. u.score) e in omega arith
by_score-le s t (inr h) = ground arith

points-le :
    (bundle : EventBundle) (w start end : ℕ) (d best : IncidentFingerprint) (top : Scored)
    → top ≡ scored bundle w start end best
    → (scored bundle w start end d).score ≤ top.score
    → points bundle w start end d ≤ points bundle w start end best
points-le bundle w start end d best top e le =
    let same : top.score ≡ (scored bundle w start end best).score = ap (λ u. u.score) e in
    omega
      (arith, same, le, scored-points bundle w start end d, scored-points bundle w start end best)

module _ (bundle : EventBundle) (w start end : ℕ) (candidates : List IncidentFingerprint) where
  best_scored :
      (c : IncidentFingerprint)
      → In c candidates
      → (best : IncidentFingerprint) × In best candidates
        × (first (sort_by by_score (map (scored bundle w start end) candidates))
            ≡ some (scored bundle w start end best))
        × All (λ d. points bundle w start end d ≤ points bundle w start end best) candidates
  best_scored c i =
      let score = scored bundle w start end in
      let all_scored = map score candidates in
      let (top, is_top, j, least) =
        first-least by_score (score c) (sort_by by_score all_scored)
          (Sorted-sort_by by_score by_score-IsOrder all_scored)
          (In-sort_by by_score (score c) all_scored (In-map score c candidates i)) in
      let (best, k, e) = map-In score top candidates (sort_by-In by_score top all_scored j) in
      (
        best,
        k,
        is_top ∙ ap some e,
        All-of (λ d. points bundle w start end d ≤ points bundle w start end best) candidates
            (λ d m. points-le bundle w start end d best top e (
              by_score-le top (score d) (
                All-In (λ z. (z ≡ top) ⊎ (by_score top z ≡ true)) (score d)
                  (sort_by by_score all_scored) least
                  (In-sort_by by_score (score d) all_scored (In-map score d candidates m))))),
      )

points-le-90 :
    (bundle : EventBundle) (w start end : ℕ) (c : IncidentFingerprint)
    → points bundle w start end c ≤ 90
unfolding points
points-le-90 bundle w start end c = ground arith

accept_best-some :
    (s : Scored) (threshold : ℕ)
    → let r = accept_best (some s) threshold in
      (r.score ≡ s.score)
      × (r.abstained ≡ ltb s.score threshold)
      × (r.incident_id ≡ (if ltb s.score threshold then none else some s.candidate.incident_id))
unfolding accept_best
accept_best-some s threshold = ground arith

-- A bundle with logs and no candidate of its correlation identifier goes to a candidate with the most
-- points, of which there are 45 for a common user, 25 for a common service and 20 for times within the
-- window: if these reach the threshold the result is that candidate with its points as the score, and
-- otherwise it abstains with the same score. A score like this is at most 90.
pub correlate_bundle-best :
    (bundle : EventBundle) (time_window threshold start end : ℕ) (c : IncidentFingerprint)
    (candidates : List IncidentFingerprint)
    → observed_range bundle.logs ≡ ok (start, end)
    → In c candidates
    → All (λ d. is_exact bundle d ≡ false) candidates
    → (best : IncidentFingerprint) × (r : CorrelationResult) × In best candidates
      × All
          (λ d. points bundle time_window start end d ≤ points bundle time_window start end best)
          candidates
      × (correlate_bundle bundle candidates time_window threshold ≡ ok r)
      × (r.score ≡ points bundle time_window start end best)
      × (r.score ≤ 90)
      × (r.abstained ≡ ltb (points bundle time_window start end best) threshold)
      × (r.incident_id ≡ (
          if ltb (points bundle time_window start end best) threshold
          then none
          else some best.incident_id))
unfolding correlate_bundle accept_exact sort_by scored
correlate_bundle-best bundle w threshold start end c candidates range i inexact =
    let (best, k, top, most) = best_scored bundle w start end candidates c i in
    let score = scored bundle w start end best in
    let counted = scored-points bundle w start end best in
    let bound = points-le-90 bundle w start end best in
    let (same, abstains, chosen) = accept_best-some score threshold in
    let total : (accept_best (some score) threshold).score ≡ points bundle w start end best =
      same ∙ counted in
    (
      best,
      accept_best (some score) threshold,
      k,
      most,
      rw
          (
            filter_by-none (is_exact bundle) candidates inexact,
            score_all-ok bundle w start end candidates range,
            top,
          )
          refl,
      total,
      rw total bound,
      rw (← counted) abstains,
      rw (← counted) (rw (scored-candidate bundle w start end best) at chosen),
    )
