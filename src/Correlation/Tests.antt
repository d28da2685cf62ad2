-- ===== src/Correlation/Tests.antt =====
-- Two candidates for a bundle of one log: one shares the user and the time, the other the service.
use incident_intelligence_pl.Prelude.{
  ◌≤◌, ◌≡◌, refl, sym, ◌∙◌, none, some, List, [], ◌∷◌, inl, inr, ltb, All, if◌then◌else◌, arith,
}
use incident_intelligence_pl.Prelude.Ordered.{In}
use incident_intelligence_pl.Failure.{ok}
use incident_intelligence_pl.Schemas.{LogEvent, EventBundle, Priority, TicketSource, LogSeverity}
use incident_intelligence_pl.Correlation.{
  IncidentFingerprint, CorrelationResult, observed_range, correlate_bundle,
}
use incident_intelligence_pl.Correlation.Order.{Identified, correlate_bundle-order}
use incident_intelligence_pl.Correlation.Best.{points, correlate_bundle-best}

abbrev log : LogEvent
log = record {
  event_id = "evt-1";
  observed_at = 1000;
  service = "identity";
  severity = LogSeverity.error;
  message = "account lockout";
  synthetic_user_id = "user-1";
  attributes = [];
}

abbrev bundle : EventBundle
bundle = record {
  correlation_id = "corr-1";
  ticket = record {
    ticket_id = "TCK-1";
    subject = "Locked out";
    description = "Cannot sign in since this morning.";
    priority = Priority.high;
    source = TicketSource.helpdesk;
    requester_role = "analyst";
    created_at = 4;
    tags = [];
  };
  logs = log ∷ [];
}

abbrev near : IncidentFingerprint
near = record {
  incident_id = 7;
  correlation_id = "corr-7";
  observed_from = 400;
  observed_to = 800;
  synthetic_user_ids = "user-1" ∷ [];
  services = "mail" ∷ [];
}

abbrev far : IncidentFingerprint
far = record {
  incident_id = 3;
  correlation_id = "corr-3";
  observed_from = 1;
  observed_to = 2;
  synthetic_user_ids = "user-9" ∷ [];
  services = "identity" ∷ [];
}

abbrev two : List IncidentFingerprint
two = near ∷ far ∷ []

abbrev swapped : List IncidentFingerprint
swapped = far ∷ near ∷ far ∷ []

two-Identified : Identified two
two-Identified c d (inl e) (inl f) h = e ∙ sym f
two-Identified c d (inr (inl e)) (inr (inl f)) h = e ∙ sym f
two-Identified c d (inl e) (inr (inl f)) h = absurd (ground (arith, e, f, h))
two-Identified c d (inr (inl e)) (inl f) h = absurd (ground (arith, e, f, h))
two-Identified c d (inr (inr i)) j h = absurd i
two-Identified c d (inl e) (inr (inr j)) h = absurd j
two-Identified c d (inr (inl e)) (inr (inr j)) h = absurd j

to_swapped : (c : IncidentFingerprint) → In c two → In c swapped
to_swapped c (inl e) = inr (inl e)
to_swapped c (inr (inl e)) = inl e
to_swapped c (inr (inr i)) = absurd i

from_swapped : (c : IncidentFingerprint) → In c swapped → In c two
from_swapped c (inl e) = inr (inl e)
from_swapped c (inr (inl e)) = inl e
from_swapped c (inr (inr (inl e))) = inr (inl e)
from_swapped c (inr (inr (inr i))) = absurd i

correlate_bundle-order_example :
    correlate_bundle bundle two 900 60 ≡ correlate_bundle bundle swapped 900 60
correlate_bundle-order_example =
    correlate_bundle-order bundle 900 60 two swapped two-Identified to_swapped from_swapped

one_log : observed_range bundle.logs ≡ ok (1000, 1000)
unfolding observed_range
one_log = refl

correlate_bundle-best_example :
    (best : IncidentFingerprint) × (r : CorrelationResult) × In best two
    × All (λ d. points bundle 900 1000 1000 d ≤ points bundle 900 1000 1000 best) two
    × (correlate_bundle bundle two 900 60 ≡ ok r)
    × (r.score ≡ points bundle 900 1000 1000 best)
    × (r.score ≤ 90)
    × (r.abstained ≡ ltb (points bundle 900 1000 1000 best) 60)
    × (r.incident_id
        ≡ (if ltb (points bundle 900 1000 1000 best) 60 then none else some best.incident_id))
correlate_bundle-best_example =
    correlate_bundle-best bundle 900 60 1000 1000 near two one_log (inl refl) (refl, (refl, tt))
