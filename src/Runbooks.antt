-- ===== src/Runbooks.antt =====
-- runbooks.py: the classification of an incident by its signals, and the drafted runbook.
pub mod Confidence
use incident_intelligence_pl.Prelude.{
  String, Bool, true, false, not, ◌&&◌, List, [], ◌∷◌, concat, if◌then◌else◌,
}
use incident_intelligence_pl.Schemas.{EventBundle}
use incident_intelligence_pl.AuthFailures.{signals_for_bundle, member}
use incident_intelligence_pl.Classification.{is_empty}

pub data IncidentCategory : Type 0 where
  authentication_failure uncategorized : IncidentCategory

pub data ClassificationConfidence : Type 0 where
  low medium high : ClassificationConfidence

-- `ApprovalStatus`, a literal type of one value.
pub data ApprovalStatus : Type 0 where
  pending_human_approval : ApprovalStatus

pub record IncidentClassification : Type 0 where
  pub correlation_id : String
  pub ticket_id : String
  pub category : IncidentCategory
  pub confidence : ClassificationConfidence
  pub reason_codes : List String
  pub summary : String

pub record RunbookDraft : Type 0 where
  pub classification : IncidentClassification
  pub approval_status : ApprovalStatus
  pub approval_required : Bool
  pub suggested_runbook : String
  pub operator_notes : String

unfoldable pub confidence_for_signals : List String → ClassificationConfidence
confidence_for_signals signals =
    if member "account_lockout" signals && member "repeated_failures" signals
    then high
    else if member "mfa_denied" signals
    then medium
    else low

-- `confidence.capitalize()`
unfoldable pub confidence_label : ClassificationConfidence → String
confidence_label low = "Low"
confidence_label medium = "Medium"
confidence_label high = "High"

unfoldable pub classify_incident : EventBundle → IncidentClassification
classify_incident bundle =
    let signals = signals_for_bundle bundle in
    if not (is_empty signals)
    then record {
      correlation_id = bundle.correlation_id;
      ticket_id = bundle.ticket.ticket_id;
      category = authentication_failure;
      confidence = confidence_for_signals signals;
      reason_codes = signals;
      summary = concat (
          confidence_label (confidence_for_signals signals)
          ∷ " confidence "
          ∷ "authentication_failure incident for ticket "
          ∷ bundle.ticket.ticket_id
          ∷ "."
          ∷ []);
    }
    else record {
      correlation_id = bundle.correlation_id;
      ticket_id = bundle.ticket.ticket_id;
      category = uncategorized;
      confidence = low;
      reason_codes = [];
      summary = concat (
          "Low confidence uncategorized incident for ticket " ∷ bundle.ticket.ticket_id ∷ "." ∷ []);
    }

unfoldable pub suggested_runbook : IncidentCategory → String
suggested_runbook authentication_failure = concat (
    "Verify the synthetic user's identity, review MFA challenge history, "
    ∷ "confirm the lockout window, reset authentication factors if policy allows, "
    ∷ "and monitor for repeated failures before closing the ticket." ∷ [])
suggested_runbook uncategorized = concat (
    "Review the ticket context and correlated logs, collect missing evidence, "
    ∷ "and assign a human analyst before drafting an external response." ∷ [])

unfoldable pub draft_runbook_response : EventBundle → RunbookDraft
draft_runbook_response bundle =
    let classification = classify_incident bundle in
    record {
      classification = classification;
      approval_status = pending_human_approval;
      approval_required = true;
      suggested_runbook = suggested_runbook classification.category;
      operator_notes = concat (
          "Draft only. A human reviewer must approve wording and next actions before any "
          ∷ "response is sent or external system is updated." ∷ []);
    }
