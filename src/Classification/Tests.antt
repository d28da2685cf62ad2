-- ===== src/Classification/Tests.antt =====
-- The theorems on classification at a concrete bundle: a denied MFA prompt and a lockout.
use incident_intelligence_pl.Prelude.{◌≡◌, true, [], ◌∷◌, ◌||◌, ◌&&◌, any, leb, if◌then◌else◌}
use incident_intelligence_pl.Schemas.{
  pos, text, int, LogEvent, EventBundle, Priority, TicketSource, LogSeverity,
}
use incident_intelligence_pl.AuthFailures.{
  denies_mfa, locks_out, member, signals_for_bundle, low, medium, high, risk_level,
}
use incident_intelligence_pl.AuthFailures.Signals.{highest_count, signals_for_bundle-exact}
use incident_intelligence_pl.Runbooks.{
  IncidentCategory, ClassificationConfidence, classify_incident,
}
use incident_intelligence_pl.Runbooks.Confidence.{classify_incident-exact}
use incident_intelligence_pl.Classification.{classify, citations_are_valid}
use incident_intelligence_pl.Classification.Citations.{classify-citations}

abbrev denied : LogEvent
denied = record {
  event_id = "evt-1";
  observed_at = 5;
  service = "identity";
  severity = LogSeverity.warning;
  message = "MFA prompt denied";
  synthetic_user_id = "user-1";
  attributes =
      ("result", text "denied")
      ∷ ("auth_method", text "mfa_push")
      ∷ ("failure_count", int (pos 2))
      ∷ [];
}

abbrev locked : LogEvent
locked = record denied { event_id = "evt-2"; message = "Account Lockout"; attributes = [] }

abbrev bundle : EventBundle
bundle = record {
  correlation_id = "corr-1";
  ticket = record {
    ticket_id = "TCK-1";
    subject = "Locked out";
    description = "Cannot sign in since this morning.";
    priority = Priority.high;
    source = TicketSource.helpdesk;
    requester_role = "analyst";
    created_at = 4;
    tags = [];
  };
  logs = denied ∷ locked ∷ [];
}

signals_for_bundle-exact_example :
    let signals = signals_for_bundle bundle in
    let lock = any locks_out bundle.logs in
    let repeated = leb 3 (highest_count bundle.logs) in
    (member "mfa_denied" signals ≡ any denies_mfa bundle.logs)
    × (member "account_lockout" signals ≡ lock)
    × (member "repeated_failures" signals ≡ repeated)
    × (risk_level signals
        ≡ (if lock || repeated then high else if any denies_mfa bundle.logs then medium else low))
signals_for_bundle-exact_example = signals_for_bundle-exact bundle

classify-citations_example : citations_are_valid bundle (classify 30 bundle) ≡ true
classify-citations_example = classify-citations 30 bundle

classify_incident-exact_example :
    let denies = any denies_mfa bundle.logs in
    let lock = any locks_out bundle.logs in
    let repeated = leb 3 (highest_count bundle.logs) in
    let c = classify_incident bundle in
    (c.category ≡ (
      if denies || lock || repeated
      then IncidentCategory.authentication_failure
      else IncidentCategory.uncategorized))
    × (c.confidence ≡ (
        if lock && repeated
        then ClassificationConfidence.high
        else if denies
        then ClassificationConfidence.medium
        else ClassificationConfidence.low))
classify_incident-exact_example = classify_incident-exact bundle
