-- ===== src/Schemas.antt =====
-- schemas.py: the event bundle that every entry point takes, as the parsed values. Instants are
-- microseconds on one time line; a float attribute is carried by the text that Python prints for it.
pub mod Validation
use incident_intelligence_pl.Prelude.{ℕ, String, List}

-- An `int` attribute.
pub data ℤ : Type 0 where
  pos : ℕ → ℤ
  negsuc : ℕ → ℤ

pub data Priority : Type 0 where
  low medium high urgent : Priority

pub data TicketSource : Type 0 where
  helpdesk email chat monitoring : TicketSource

pub data LogSeverity : Type 0 where
  debug info warning error critical : LogSeverity

-- `str | int | float | bool | None`
pub data AttributeValue : Type 0 where
  text : String → AttributeValue
  int : ℤ → AttributeValue
  float : String → AttributeValue
  bool_true bool_false null : AttributeValue

abbrev pub Attributes : Type 0
Attributes = List (String × AttributeValue)

pub record SupportTicket : Type 0 where
  pub ticket_id : String
  pub subject : String
  pub description : String
  pub priority : Priority
  pub source : TicketSource
  pub requester_role : String
  pub created_at : ℕ
  pub tags : List String

pub record LogEvent : Type 0 where
  pub event_id : String
  pub observed_at : ℕ
  pub service : String
  pub severity : LogSeverity
  pub message : String
  pub synthetic_user_id : String
  pub attributes : Attributes

pub record EventBundle : Type 0 where
  pub correlation_id : String
  pub ticket : SupportTicket
  pub logs : List LogEvent
