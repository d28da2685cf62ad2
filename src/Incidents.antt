-- ===== src/Incidents.antt =====
-- incidents.py, and `PostgresIncidentRepository.get_incident` of postgres.py: one incident with its
-- ticket and its evidence. The order of texts is the database's collation, an argument.
pub mod Paging
pub mod Rest
pub mod Walk
mod Tests
use incident_intelligence_pl.Prelude.{
  ℕ, String, Bool, ◌||◌, ◌&&◌, Option, none, some, List, [], ◌∷◌, map, ltb, ◌==◌, filter_by,
  sort_by,
}
use incident_intelligence_pl.Prelude.Keyed.{find_row}
use incident_intelligence_pl.Failure.{
  sqlalchemy_error, Result, ok, err, ◌>>=◌, Availability, engine_connect, rethrow, hide_sql,
}
use incident_intelligence_pl.Database.{Database, IncidentRow, TicketRow, EvidenceRow}
use incident_intelligence_pl.Schemas.{Attributes, Priority, TicketSource, LogSeverity}
use incident_intelligence_pl.Jobs.Repository.{incident_key}

pub record IncidentSummary : Type 0 where
  pub incident_id : ℕ
  pub correlation_id : String
  pub status : String
  pub priority : Priority
  pub summary : String
  pub created_at : ℕ
  pub updated_at : ℕ

pub record TicketDetail : Type 0 where
  pub ticket_id : String
  pub subject : String
  pub description : String
  pub priority : Priority
  pub source : TicketSource
  pub requester_role : String
  pub created_at : ℕ
  pub tags : List String

pub record EvidenceDetail : Type 0 where
  pub event_id : String
  pub observed_at : ℕ
  pub service : String
  pub severity : LogSeverity
  pub message : String
  pub synthetic_user_id : String
  pub attributes : Attributes

-- The fields of the summary that it extends are under `overview`.
pub record IncidentDetail : Type 0 where
  pub overview : IncidentSummary
  pub ticket : TicketDetail
  pub evidence : List EvidenceDetail

-- `_summary_from_row`
unfoldable pub summary_from_row : IncidentRow → IncidentSummary
summary_from_row row = record {
  incident_id = row.id;
  correlation_id = row.correlation_id;
  status = row.status;
  priority = row.priority;
  summary = row.summary;
  created_at = row.created_at;
  updated_at = row.updated_at;
}

unfoldable pub ticket_detail : TicketRow → TicketDetail
ticket_detail row = record {
  ticket_id = row.ticket_id;
  subject = row.subject;
  description = row.description;
  priority = row.priority;
  source = row.source;
  requester_role = row.requester_role;
  created_at = row.created_at;
  tags = row.tags;
}

unfoldable pub evidence_detail : EvidenceRow → EvidenceDetail
evidence_detail row = record {
  event_id = row.event_id;
  observed_at = row.observed_at;
  service = row.service;
  severity = row.severity;
  message = row.message;
  synthetic_user_id = row.synthetic_user_id;
  attributes = row.attributes;
}

-- `.one()`: any number of rows but one raises.
abbrev pub exactly_one {ℓ} : {A : Type ℓ} → List A → Result A
exactly_one [] = err sqlalchemy_error
exactly_one (r ∷ []) = ok r
exactly_one (r ∷ s ∷ rows) = err sqlalchemy_error

-- `order_by(evidence_events.c.observed_at, evidence_events.c.event_id)`
abbrev pub seen_before : (String → String → Bool) → EvidenceRow → EvidenceRow → Bool
seen_before collated r s =
    ltb r.observed_at s.observed_at
    || (r.observed_at == s.observed_at && collated r.event_id s.event_id)

unfoldable pub detail_of :
    (String → String → Bool) → ℕ → Option IncidentRow → Database → Result (Option IncidentDetail)
detail_of collated incident_id none db = ok none
detail_of collated incident_id (some row) db = do
  ticket ← exactly_one (filter_by (λ t. t.incident_id == incident_id) db.support_tickets)
  let events = filter_by (λ e. e.incident_id == incident_id) db.evidence_events
  ok (
      some (record {
        overview = summary_from_row row;
        ticket = ticket_detail ticket;
        evidence = map evidence_detail (sort_by (seen_before collated) events);
      }))

unfoldable pub get_incident :
    (String → String → Bool) → Availability → ℕ → Database → Result (Option IncidentDetail)
unfolding detail_of
get_incident collated a incident_id db = rethrow hide_sql (
    engine_connect a
      (λ d. detail_of collated incident_id (find_row incident_key incident_id d.incidents) d) db)
