-- ===== src/Offboarding.antt =====
-- offboarding.py: a validated fixture as an event bundle. `events_by_id` is the list of its values in
-- the order in which their keys came, each under its own `event_id`; storing an equal event once more
-- leaves it as it is. Pydantic's parsing of the payload comes before.
pub mod Collect
pub mod Events
pub mod Order
mod Tests
use incident_intelligence_pl.Prelude.{
  ℕ, String, Bool, true, false, ◌&&◌, ◌||◌, not, Option, none, some, List, [], ◌∷◌, ◌++◌, map,
  sort_by, leb, ltb, ◌==◌, str_eq, concat, if◌then◌else◌,
}
use incident_intelligence_pl.Prelude.TextOrder.{text_leb}
use incident_intelligence_pl.Failure.{
  value_error_with, other_error, Result, ok, err, ◌>>=◌, ◌>>◌, require,
}
use incident_intelligence_pl.Schemas.{
  SupportTicket, LogEvent, EventBundle, LogSeverity, AttributeValue, text, bool_true,
}
use incident_intelligence_pl.Schemas.Validation.{valid_bundle}

pub record DisabledIdentity : Type 0 where
  pub event_id : String
  pub synthetic_user_id : String
  pub disabled_at : ℕ

pub record LinkedEndpoint : Type 0 where
  pub synthetic_endpoint_id : String
  pub assigned_synthetic_user_id : String

pub data AccessResult : Type 0 where
  allowed denied : AccessResult

pub record AccessEvent : Type 0 where
  pub event_id : String
  pub observed_at : ℕ
  pub synthetic_user_id : String
  pub synthetic_endpoint_id : String
  pub result : AccessResult

pub record OffboardingFixture : Type 0 where
  pub correlation_id : String
  pub ticket : SupportTicket
  pub identity : DisabledIdentity
  pub endpoint : LinkedEndpoint
  pub access_events : List AccessEvent

abbrev pub same_result : AccessResult → AccessResult → Bool
same_result allowed allowed = true
same_result denied denied = true
same_result _ _ = false

-- `existing == event`
unfoldable pub same_event : AccessEvent → AccessEvent → Bool
same_event e f =
    str_eq e.event_id f.event_id
    && e.observed_at == f.observed_at
    && str_eq e.synthetic_user_id f.synthetic_user_id
    && str_eq e.synthetic_endpoint_id f.synthetic_endpoint_id
    && same_result e.result f.result

-- The four tests of the loop before the dictionary is looked at.
unfoldable pub check_event : DisabledIdentity → LinkedEndpoint → AccessEvent → Result (Unit {0})
check_event identity endpoint event = do
  require (str_eq event.synthetic_user_id identity.synthetic_user_id)
      (value_error_with "access identity must link to the disabled identity")
  require (str_eq event.synthetic_endpoint_id endpoint.synthetic_endpoint_id)
      (value_error_with "access endpoint must link to the assigned endpoint")
  require (ltb identity.disabled_at event.observed_at)
      (value_error_with "access must occur strictly after disablement")
  require (not (str_eq event.event_id identity.event_id))
      (value_error_with "access event_id must differ from the disablement event_id")

unfoldable pub get_event : String → List AccessEvent → Option AccessEvent
get_event event_id [] = none
get_event event_id (e ∷ es) = if str_eq e.event_id event_id then some e else get_event event_id es

unfoldable pub put_event :
    Option AccessEvent → AccessEvent → List AccessEvent → Result (List AccessEvent)
put_event none event events = ok (events ++ (event ∷ []))
put_event (some existing) event events =
    if same_event existing event
    then ok events
    else err (value_error_with "conflicting duplicate event_id in synthetic access events")

unfoldable pub collect_events :
    DisabledIdentity
    → LinkedEndpoint
    → List AccessEvent
    → List AccessEvent
    → Result (List AccessEvent)
collect_events identity endpoint [] events = ok events
collect_events identity endpoint (event ∷ rest) events = do
  check_event identity endpoint event
  events' ← put_event (get_event event.event_id events) event events
  collect_events identity endpoint rest events'

unfoldable pub identity_log : DisabledIdentity → LinkedEndpoint → LogEvent
identity_log identity endpoint = record {
  event_id = identity.event_id;
  observed_at = identity.disabled_at;
  service = "synthetic-google-workspace";
  severity = LogSeverity.info;
  message = "Synthetic identity marked disabled in the offline offboarding fixture.";
  synthetic_user_id = identity.synthetic_user_id;
  attributes =
      ("event_type", text "identity_disabled")
      ∷ ("identity_state", text "disabled")
      ∷ ("synthetic_endpoint_id", text endpoint.synthetic_endpoint_id)
      ∷ ("fixture_only", bool_true)
      ∷ [];
}

abbrev pub result_name : AccessResult → String
result_name allowed = "allowed"
result_name denied = "denied"

abbrev pub severity_of : AccessResult → LogSeverity
severity_of allowed = LogSeverity.error
severity_of denied = LogSeverity.warning

unfoldable pub access_log : DisabledIdentity → AccessEvent → LogEvent
access_log identity event = record {
  event_id = event.event_id;
  observed_at = event.observed_at;
  service = "synthetic-google-workspace";
  severity = severity_of event.result;
  message = concat (
      "Synthetic access attempt recorded as "
      ∷ result_name event.result
      ∷ " after disablement."
      ∷ []);
  synthetic_user_id = event.synthetic_user_id;
  attributes =
      ("event_type", text "access_attempt")
      ∷ ("result", text (result_name event.result))
      ∷ ("disabled_event_id", text identity.event_id)
      ∷ ("synthetic_endpoint_id", text event.synthetic_endpoint_id)
      ∷ ("fixture_only", bool_true)
      ∷ [];
}

-- `key=lambda item: (item.observed_at, item.event_id)`
abbrev pub earlier : AccessEvent → AccessEvent → Bool
earlier e f =
    ltb e.observed_at f.observed_at
    || (e.observed_at == f.observed_at && text_leb e.event_id f.event_id)

-- The bundle, which pydantic validates when it is built.
unfoldable pub bundle_of_events : OffboardingFixture → List AccessEvent → Result EventBundle
bundle_of_events source events =
    let bundle : EventBundle = record {
      correlation_id = source.correlation_id;
      ticket = source.ticket;
      logs =
          identity_log source.identity source.endpoint
          ∷ map (access_log source.identity) (sort_by earlier events);
    } in
    if valid_bundle bundle then ok bundle else err (other_error "ValidationError")

-- `adapt_offboarding_fixture`, from the validated source on.
unfoldable pub adapt_offboarding_fixture : OffboardingFixture → Result EventBundle
adapt_offboarding_fixture source = do
  require (str_eq source.endpoint.assigned_synthetic_user_id source.identity.synthetic_user_id)
      (value_error_with "endpoint owner must link to the disabled identity")
  events ← collect_events source.identity source.endpoint source.access_events []
  bundle_of_events source events
