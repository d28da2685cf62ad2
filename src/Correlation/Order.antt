-- ===== src/Correlation/Order.antt =====
-- The order in which the candidates come, and their repetition, make no difference.
use incident_intelligence_pl.Prelude.{
  ℕ, ◌≡◌, refl, sym, ap, ◌∙◌, true, List, [], ◌∷◌, map, arith, filter_by, sort_by, Option-cases,
  inl, inr,
}
use incident_intelligence_pl.Prelude.Ordered.{In, IsOrder, In-filter_by, In-map}
use incident_intelligence_pl.Prelude.Unique.{first, filter_by-In, map-In, Within, first-sort_by}
use incident_intelligence_pl.Failure.{Failure, ok, err, ◌>>=◌, Result-cases}
use incident_intelligence_pl.Schemas.{EventBundle}
use incident_intelligence_pl.Correlation.{
  IncidentFingerprint, Scored, observed_range, scored, score_candidate, score_all, by_id, by_score,
  accept_best, accept_exact, is_exact, correlate_bundle,
}

pub by_id-IsOrder : IsOrder by_id
by_id-IsOrder = record { trans = λ x y z p q. ground arith; total = λ x y p. ground arith }

pub by_score-IsOrder : IsOrder by_score
by_score-IsOrder = record { trans = λ x y z p q. ground arith; total = λ x y p. ground arith }

by_score-same :
    (s t : Scored)
    → by_score s t ≡ true
    → by_score t s ≡ true
    → s.candidate.incident_id ≡ t.candidate.incident_id
by_score-same s t p q = ground arith

-- With the times known every candidate gets its score; without them scoring raises, unless there
-- is no candidate.
pub score_all-ok :
    (bundle : EventBundle) (time_window start end : ℕ) (candidates : List IncidentFingerprint)
    → observed_range bundle.logs ≡ ok (start, end)
    → score_all bundle candidates time_window
      ≡ ok (map (scored bundle time_window start end) candidates)
unfolding score_all score_candidate
score_all-ok bundle w a b [] e = refl
score_all-ok bundle w a b (c ∷ cs) e = rw (e, score_all-ok bundle w a b cs e) refl

score_all-err :
    (bundle : EventBundle) (w : ℕ) (f : Failure) (c : IncidentFingerprint)
    (cs : List IncidentFingerprint)
    → observed_range bundle.logs ≡ err f
    → score_all bundle (c ∷ cs) w ≡ err f
unfolding score_all score_candidate
score_all-err bundle w f c cs e = rw e refl

-- Candidates of one identifier are one candidate.
abbrev pub Identified : List IncidentFingerprint → Type 0
Identified candidates =
    (c d : IncidentFingerprint)
    → In c candidates
    → In d candidates
    → c.incident_id ≡ d.incident_id
    → c ≡ d

module _ (bundle : EventBundle) (w threshold : ℕ) (xs ys : List IncidentFingerprint)
    (known : Identified xs) (to : Within xs ys) (from : Within ys xs) where
  exact-order :
      first (sort_by by_id (filter_by (is_exact bundle) xs))
      ≡ first (sort_by by_id (filter_by (is_exact bundle) ys))
  exact-order =
      first-sort_by by_id (filter_by (is_exact bundle) xs) (filter_by (is_exact bundle) ys)
        by_id-IsOrder
        (λ c d i j p q.
          known c d (filter_by-In (is_exact bundle) c xs i).0
            (filter_by-In (is_exact bundle) d xs j).0 (ground arith))
        (kept xs ys to) (kept ys xs from)
    where
      kept :
          (us vs : List IncidentFingerprint)
          → Within us vs
          → Within (filter_by (is_exact bundle) us) (filter_by (is_exact bundle) vs)
      kept us vs t c i =
          let (j, e) = filter_by-In (is_exact bundle) c us i in
          In-filter_by (is_exact bundle) c vs e (t c j)

  scores-order :
      (start end : ℕ)
      → first (sort_by by_score (map (scored bundle w start end) xs))
        ≡ first (sort_by by_score (map (scored bundle w start end) ys))
  unfolding scored
  scores-order start end =
      first-sort_by by_score (map score xs) (map score ys) by_score-IsOrder
        (λ s t i j p q.
          let (c, ci, ce) = map-In score s xs i in
          let (d, di, de) = map-In score t xs j in
          let same : c ≡ d = known c d ci di (ids c d s t ce de p q) in ce ∙ ap score same ∙ sym de)
        (moved xs ys to) (moved ys xs from)
    where
      score : IncidentFingerprint → Scored
      score = scored bundle w start end

      ids :
          (c d : IncidentFingerprint) (s t : Scored)
          → s ≡ score c
          → t ≡ score d
          → by_score s t ≡ true
          → by_score t s ≡ true
          → c.incident_id ≡ d.incident_id
      ids c d s t ce de p q =
          sym (ap (λ u. u.candidate.incident_id) ce)
          ∙ by_score-same s t p q
          ∙ ap (λ u. u.candidate.incident_id) de

      moved :
          (us vs : List IncidentFingerprint) → Within us vs → Within (map score us) (map score vs)
      moved us vs t s i = let (c, j, e) = map-In score s us i in rw e (In-map score c vs (t c j))

  scored-order :
      (score_all bundle xs w >>= λ all_scored.
      ok (accept_best (first (sort_by by_score all_scored)) threshold))
      ≡ (score_all bundle ys w >>= λ all_scored.
          ok (accept_best (first (sort_by by_score all_scored)) threshold))
  scored-order = elim (Result-cases (observed_range bundle.logs)) [
    | inr ((start, end), e) ↦
        rw
          (
            score_all-ok bundle w start end xs e,
            score_all-ok bundle w start end ys e,
            scores-order start end,
          )
          refl
    | inl (f, e) ↦ raised f e xs ys to from
  ]
    where
      raised :
          (f : Failure)
          → observed_range bundle.logs ≡ err f
          → (us vs : List IncidentFingerprint) → Within us vs
          → Within vs us
          → (score_all bundle us w >>= λ all_scored.
              ok (accept_best (first (sort_by by_score all_scored)) threshold))
            ≡ (score_all bundle vs w >>= λ all_scored.
                ok (accept_best (first (sort_by by_score all_scored)) threshold))
      raised f e [] [] t r = refl
      raised f e [] (d ∷ ds) t r = absurd (r d (inl refl))
      raised f e (c ∷ cs) [] t r = absurd (t c (inl refl))
      raised f e (c ∷ cs) (d ∷ ds) t r =
          rw (score_all-err bundle w f c cs e, score_all-err bundle w f d ds e) refl

-- Two lists with the same candidates, whatever their order and repetitions, correlate a bundle in the
-- same way, provided that no two different candidates share an incident identifier.
pub correlate_bundle-order :
    (bundle : EventBundle) (time_window threshold : ℕ) (xs ys : List IncidentFingerprint)
    → Identified xs
    → Within xs ys
    → Within ys xs
    → correlate_bundle bundle xs time_window threshold
      ≡ correlate_bundle bundle ys time_window threshold
unfolding correlate_bundle accept_exact
correlate_bundle-order bundle w threshold xs ys known to from =
    elim (Option-cases (first (sort_by by_id (filter_by (is_exact bundle) ys)))) [
      | inr (c, e) ↦ rw (exact-order bundle w threshold xs ys known to from, e) refl
      | inl e ↦
          rw (exact-order bundle w threshold xs ys known to from, e)
            (scored-order bundle w threshold xs ys known to from)
    ]
