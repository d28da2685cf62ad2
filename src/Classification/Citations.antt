-- ===== src/Classification/Citations.antt =====
-- The rules classifier cites evidence for what it says, and only evidence that is there.
use incident_intelligence_pl.Prelude.{
  ℕ, ◌≡◌, refl, ap, ◌∙◌, String, Bool, true, false, not, ◌&&◌, ◌||◌, Option, none, some, List, [],
  ◌∷◌, any, arith, length, filter_by, eq_refl, leb, Bool-cases, inl, inr,
}
use incident_intelligence_pl.Schemas.{
  AttributeValue, text, int, float, bool_true, bool_false, null, LogEvent, EventBundle,
}
use incident_intelligence_pl.AuthFailures.{
  attribute, is_text, is_true, is_int, lockout_in_message, denies_mfa, locks_out, raise_count,
  member, signals_for_bundle,
}
use incident_intelligence_pl.AuthFailures.Signals.{highest_count, signals_for_bundle-none}
use incident_intelligence_pl.Classification.{
  is_authentication_evidence, is_network_evidence, is_endpoint_evidence, event_ids, is_empty,
  classify_supported_evidence, classify, is_subset, citations_are_valid,
}

member-event_ids :
    (log : LogEvent) (logs : List LogEvent) → member log.event_id (event_ids (log ∷ logs)) ≡ true
member-event_ids log logs = rw (eq_refl log.event_id) refl

is_subset-more :
    (s : String) (ss ids : List String) → is_subset ss ids ≡ true → is_subset ss (s ∷ ids) ≡ true
is_subset-more s [] ids h = refl
is_subset-more s (t ∷ ss) ids h = ground (arith, is_subset-more s ss ids, h)

-- The identifiers of some of the logs are among those of all.
is_subset-filter_by :
    (test : LogEvent → Bool) (logs : List LogEvent)
    → is_subset (event_ids (filter_by test logs)) (event_ids logs) ≡ true
unfolding filter_by
is_subset-filter_by test [] = refl
is_subset-filter_by test (log ∷ logs) =
    let rest =
      is_subset-more log.event_id (event_ids (filter_by test logs)) (event_ids logs)
        (is_subset-filter_by test logs) in
    ground (arith, rest, member-event_ids log logs)

is_empty-filter_by :
    (test : LogEvent → Bool) (logs : List LogEvent)
    → is_empty (filter_by test logs) ≡ not (any test logs)
unfolding filter_by
is_empty-filter_by test [] = refl
is_empty-filter_by test (log ∷ logs) = ground (arith, is_empty-filter_by test logs)

is_empty-event_ids : (logs : List LogEvent) → is_empty (event_ids logs) ≡ is_empty logs
is_empty-event_ids [] = refl
is_empty-event_ids (log ∷ logs) = refl

counted : (v : Option AttributeValue) → is_int v ≡ false → raise_count v 0 ≡ 0
counted none h = refl
counted (some (text s)) h = refl
counted (some (int n)) h = absurd (ground (arith, h))
counted (some (float s)) h = refl
counted (some bool_true) h = absurd (ground (arith, h))
counted (some bool_false) h = refl
counted (some null) h = refl

-- A log without authentication evidence shows nothing that makes a signal.
no_evidence_log :
    (log : LogEvent)
    → is_authentication_evidence log ≡ false
    → (denies_mfa log ≡ false)
      × (locks_out log ≡ false)
      × (raise_count (attribute "failure_count" log) 0 ≡ 0)
unfolding is_authentication_evidence denies_mfa locks_out
no_evidence_log log h =
    let result = is_text "denied" (attribute "result" log) in
    let lockout = is_true (attribute "lockout" log) in
    let count = is_int (attribute "failure_count" log) in
    let (rest, no_message) = none_of (result || lockout || count) (lockout_in_message log) h in
    let (rest₂, no_count) = none_of (result || lockout) count rest in
    let (no_result, no_lockout) = none_of result lockout rest₂ in
    (
      rw no_result refl,
      rw (no_lockout, no_message) refl,
      counted (attribute "failure_count" log) no_count,
    )
  where
    none_of : (a b : Bool) → (a || b) ≡ false → (a ≡ false) × (b ≡ false)
    none_of a b e = (ground (arith, e), ground (arith, e))

no_evidence :
    (logs : List LogEvent)
    → any is_authentication_evidence logs ≡ false
    → (any denies_mfa logs ≡ false) × (any locks_out logs ≡ false) × (highest_count logs ≡ 0)
unfolding highest_count
no_evidence [] h = (refl, refl, refl)
no_evidence (log ∷ logs) h =
    let (d, l, c) = no_evidence logs (ground (arith, h)) in
    let (d₁, l₁, c₁) = no_evidence_log log (ground (arith, h)) in
    (rw d₁ d, rw l₁ l, rw (c₁, c) refl)

-- Signals come with logs to cite.
signals_cite :
    (bundle : EventBundle)
    → is_empty (signals_for_bundle bundle) ≡ false
    → is_empty (event_ids (filter_by is_authentication_evidence bundle.logs)) ≡ false
signals_cite bundle h = elim (Bool-cases (any is_authentication_evidence bundle.logs)) [
  | inl some_evidence ↦
      is_empty-event_ids (filter_by is_authentication_evidence bundle.logs)
      ∙ is_empty-filter_by is_authentication_evidence bundle.logs
      ∙ ap not some_evidence
  | inr e ↦
      let (d, l, c) = no_evidence bundle.logs e in
      let silent = signals_for_bundle-none bundle d l (ground (arith, c)) in
      absurd (cc (h, ap is_empty silent))
]

-- Whatever the bundle, the citations of the rules classifier are valid: each cited identifier is that
-- of one of the bundle's logs, and a classification other than "uncategorized" cites at least one.
pub classify-citations :
    (latency_ms : ℕ) (bundle : EventBundle)
    → citations_are_valid bundle (classify latency_ms bundle) ≡ true
unfolding classify classify_supported_evidence citations_are_valid
classify-citations latency_ms bundle =
    let logs = bundle.logs in
    let cited = λ (test : LogEvent → Bool). is_subset-filter_by test logs in
    let network_logs = filter_by is_network_evidence logs in
    let endpoint_logs = filter_by is_endpoint_evidence logs in
    elim (Bool-cases (is_empty (signals_for_bundle bundle))) [
      | inr signals ↦
          rw (signals, signals_cite bundle signals, cited is_authentication_evidence) refl
      | inl quiet ↦
          elim (Bool-cases
            (not (is_empty network_logs) && leb (length endpoint_logs) (length network_logs))) [
              | inl network ↦
                  let n : is_empty network_logs ≡ false = ground (arith, network) in
                  rw (quiet, network, is_empty-event_ids network_logs, n, cited is_network_evidence)
                    refl
              | inr other ↦ elim (Bool-cases (is_empty endpoint_logs)) [
                | inl e ↦ rw (quiet, other, e) refl
                | inr e ↦
                    rw
                      (
                        quiet,
                        other,
                        e,
                        is_empty-event_ids endpoint_logs,
                        e,
                        cited is_endpoint_evidence,
                      )
                      refl
              ]
            ]
    ]
