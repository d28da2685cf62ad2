-- ===== src/Correlation.antt =====
-- correlation.py: the known incident that a bundle belongs to, by its correlation identifier or by a
-- score. The order of UUIDs as texts is their order as numbers. A difference of times is written as
-- a sum on the other side.
pub mod Order
pub mod Best
mod Tests
use incident_intelligence_pl.Prelude.{
  ℕ, ◌+◌, min, max, String, Bool, true, false, ◌&&◌, ◌||◌, Option, none, some, List, [], ◌∷◌, ◌++◌,
  any, filter_by, sort_by, leb, ltb, ◌==◌, str_eq, if◌then◌else◌,
}
use incident_intelligence_pl.Prelude.Unique.{first}
use incident_intelligence_pl.Failure.{value_error, Result, ok, err, ◌>>=◌}
use incident_intelligence_pl.Schemas.{LogEvent, EventBundle}
use incident_intelligence_pl.AuthFailures.{member}

pub record IncidentFingerprint : Type 0 where
  pub incident_id : ℕ
  pub correlation_id : String
  pub observed_from : ℕ
  pub observed_to : ℕ
  pub synthetic_user_ids : List String
  pub services : List String

pub record CorrelationResult : Type 0 where
  pub incident_id : Option ℕ
  pub score : ℕ
  pub reason_codes : List String
  pub abstained : Bool

-- The tuple that `_score_candidate` returns.
pub record Scored : Type 0 where
  pub score : ℕ
  pub candidate : IncidentFingerprint
  pub reasons : List String

-- `min` and `max` over the logs' times, which raise for no log.
unfoldable pub observed_range : List LogEvent → Result (ℕ × ℕ)
observed_range [] = err value_error
observed_range (l ∷ []) = ok (l.observed_at, l.observed_at)
observed_range (l ∷ m ∷ ls) = do
  (start, end) ← observed_range (m ∷ ls)
  ok (min l.observed_at start, max l.observed_at end)

-- `if test: score += points; reasons.append(reason)`
abbrev pub award : Bool → ℕ → String → ℕ × List String → ℕ × List String
award true points reason (score, reasons) = (score + points, reasons ++ (reason ∷ []))
award false points reason (score, reasons) = (score, reasons)

unfoldable pub users_meet : EventBundle → IncidentFingerprint → Bool
users_meet bundle candidate =
    any (λ l. member l.synthetic_user_id candidate.synthetic_user_ids) bundle.logs

unfoldable pub services_meet : EventBundle → IncidentFingerprint → Bool
services_meet bundle candidate = any (λ l. member l.service candidate.services) bundle.logs

unfoldable pub times_meet : ℕ → ℕ → ℕ → IncidentFingerprint → Bool
times_meet time_window bundle_start bundle_end candidate =
    leb bundle_start (candidate.observed_to + time_window)
    && leb candidate.observed_from (bundle_end + time_window)

unfoldable pub scored : EventBundle → ℕ → ℕ → ℕ → IncidentFingerprint → Scored
scored bundle time_window bundle_start bundle_end candidate =
    let (score, reasons) =
      award (times_meet time_window bundle_start bundle_end candidate) 20 "time_window_match" (
        award (services_meet bundle candidate) 25 "service_match"
          (award (users_meet bundle candidate) 45 "synthetic_identity_match" (0, []))) in
    record { score = score; candidate = candidate; reasons = reasons }

-- `_score_candidate`
unfoldable pub score_candidate : EventBundle → IncidentFingerprint → ℕ → Result Scored
score_candidate bundle candidate time_window = do
  (bundle_start, bundle_end) ← observed_range bundle.logs
  ok (scored bundle time_window bundle_start bundle_end candidate)

unfoldable pub score_all : EventBundle → List IncidentFingerprint → ℕ → Result (List Scored)
score_all bundle [] time_window = ok []
score_all bundle (candidate ∷ candidates) time_window = do
  s ← score_candidate bundle candidate time_window
  rest ← score_all bundle candidates time_window
  ok (s ∷ rest)

-- The two sort keys.
abbrev pub by_id : IncidentFingerprint → IncidentFingerprint → Bool
by_id c d = leb c.incident_id d.incident_id

abbrev pub by_score : Scored → Scored → Bool
by_score s t = ltb t.score s.score || (s.score == t.score && by_id s.candidate t.candidate)

abbrev pub abstain : ℕ → String → CorrelationResult
abstain score reason = record {
  incident_id = none;
  score = score;
  reason_codes = reason ∷ [];
  abstained = true;
}

unfoldable pub accept_best : Option Scored → ℕ → CorrelationResult
accept_best none threshold = abstain 0 "no_correlation_candidates"
accept_best (some best) threshold =
    if ltb best.score threshold then abstain best.score "below_correlation_threshold" else record {
      incident_id = some best.candidate.incident_id;
      score = best.score;
      reason_codes = best.reasons;
      abstained = false;
    }

unfoldable pub accept_exact :
    Option IncidentFingerprint
    → EventBundle
    → List IncidentFingerprint
    → ℕ
    → ℕ
    → Result CorrelationResult
accept_exact (some c) bundle candidates time_window threshold = ok (record {
  incident_id = some c.incident_id;
  score = 100;
  reason_codes = "exact_correlation_id" ∷ [];
  abstained = false;
})
accept_exact none bundle candidates time_window threshold = do
  all_scored ← score_all bundle candidates time_window
  ok (accept_best (first (sort_by by_score all_scored)) threshold)

abbrev pub is_exact : EventBundle → IncidentFingerprint → Bool
is_exact bundle candidate = str_eq candidate.correlation_id bundle.correlation_id

unfoldable pub correlate_bundle :
    EventBundle → List IncidentFingerprint → ℕ → ℕ → Result CorrelationResult
correlate_bundle bundle candidates time_window threshold =
    accept_exact (first (sort_by by_id (filter_by (is_exact bundle) candidates))) bundle candidates
      time_window threshold
