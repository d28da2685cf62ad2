-- ===== src/Classification.antt =====
-- classification.py: the rules classifier; and evaluate.py: its test of cited evidence. The time
-- that `perf_counter` measures is an argument.
pub mod Citations
mod Tests
use incident_intelligence_pl.Prelude.{
  ℕ, String, Bool, true, false, not, ◌&&◌, ◌||◌, List, [], ◌∷◌, ◌++◌, any, map, length, filter_by,
  codes, lower, contains, concat, join, str_eq, leb, if◌then◌else◌,
}
use incident_intelligence_pl.Database.{
  ClassificationResult, ClassificationCategory, authentication_failure, network_connectivity,
  endpoint_health, uncategorized,
}
use incident_intelligence_pl.Schemas.{LogEvent, EventBundle}
use incident_intelligence_pl.AuthFailures.{
  attribute, is_text, is_true, is_int, lockout_in_message, signals_for_bundle, member,
}

-- `_is_authentication_evidence`
unfoldable pub is_authentication_evidence : LogEvent → Bool
is_authentication_evidence log =
    is_text "denied" (attribute "result" log)
    || is_true (attribute "lockout" log)
    || is_int (attribute "failure_count" log)
    || lockout_in_message log

-- `any(token in f"{log.service} {log.message}".lower() for token in tokens)`
unfoldable pub mentions : List String → LogEvent → Bool
mentions tokens log =
    let value = lower (codes log.service ++ (32 ∷ codes log.message)) in
    any (λ token. contains (codes token) value) tokens

abbrev pub network_tokens : List String
network_tokens = "dns" ∷ "network" ∷ "router" ∷ "switch" ∷ "unreachable" ∷ "packet" ∷ "latency" ∷ []

abbrev pub endpoint_tokens : List String
endpoint_tokens = "endpoint" ∷ "device" ∷ "disk" ∷ "cpu" ∷ "memory" ∷ "crash" ∷ "antivirus" ∷ []

unfoldable pub is_network_evidence : LogEvent → Bool
unfolding mentions
is_network_evidence log = mentions network_tokens log

unfoldable pub is_endpoint_evidence : LogEvent → Bool
unfolding mentions
is_endpoint_evidence log = mentions endpoint_tokens log

abbrev pub event_ids : List LogEvent → List String
event_ids logs = map (λ l. l.event_id) logs

abbrev pub is_empty {ℓ} : {A : Type ℓ} → List A → Bool
is_empty [] = true
is_empty (x ∷ xs) = false

-- The category, the confidence in hundredths, the citations and the reasons.
abbrev pub Verdict : Type 0
Verdict = ClassificationCategory × ℕ × List String × List String

unfoldable pub classify_supported_evidence : EventBundle → Verdict
classify_supported_evidence bundle =
    let signals = signals_for_bundle bundle in
    let network_logs = filter_by is_network_evidence bundle.logs in
    let endpoint_logs = filter_by is_endpoint_evidence bundle.logs in
    if not (is_empty signals)
    then (
      authentication_failure,
      if leb 3 (length signals) then 95 else 80,
      event_ids (filter_by is_authentication_evidence bundle.logs),
      signals,
    )
    else if not (is_empty network_logs) && leb (length endpoint_logs) (length network_logs)
    then (network_connectivity, 85, event_ids network_logs, "network_or_dns_failure" ∷ [])
    else if not (is_empty endpoint_logs)
    then (endpoint_health, 82, event_ids endpoint_logs, "endpoint_health_signal" ∷ [])
    else (uncategorized, 20, [], "insufficient_supported_evidence" ∷ [])

-- The text of a category.
unfoldable pub category_name : ClassificationCategory → String
category_name authentication_failure = "authentication_failure"
category_name network_connectivity = "network_connectivity"
category_name endpoint_health = "endpoint_health"
category_name uncategorized = "uncategorized"

-- `_explanation`
unfoldable pub explanation : ClassificationCategory → List String → String
unfolding category_name
explanation category reasons = concat (
    category_name category
    ∷ " selected from deterministic evidence rules: "
    ∷ join ", " reasons
    ∷ "."
    ∷ [])

-- `RulesClassifier.classify`
unfoldable pub classify : ℕ → EventBundle → ClassificationResult
classify latency_ms bundle =
    let (category, confidence, citations, reasons) = classify_supported_evidence bundle in
    record {
      provider = "deterministic_rules";
      category = category;
      confidence = confidence;
      cited_evidence_ids = citations;
      reason_codes = reasons;
      explanation = explanation category reasons;
      model_version = "rules-v1";
      prompt_version = "none";
      latency_ms = latency_ms;
    }

abbrev pub is_uncategorized : ClassificationCategory → Bool
is_uncategorized uncategorized = true
is_uncategorized _ = false

abbrev pub is_subset : List String → List String → Bool
is_subset [] ids = true
is_subset (s ∷ ss) ids = member s ids && is_subset ss ids

-- `_citations_are_valid`
unfoldable pub citations_are_valid : EventBundle → ClassificationResult → Bool
citations_are_valid bundle result =
    if not (is_uncategorized result.category) && is_empty result.cited_evidence_ids
    then false
    else is_subset result.cited_evidence_ids (event_ids bundle.logs)
