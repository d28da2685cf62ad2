-- ===== src/Schemas/Validation.antt =====
-- schemas.py: the limits that pydantic enforces on a bundle before the program sees it.
use incident_intelligence_pl.Prelude.{
  ℕ, String, Bool, true, not, ◌&&◌, ◌||◌, List, [], ◌∷◌, length, any, leb, ◌==◌, str_eq, codes,
}
use incident_intelligence_pl.Schemas.{SupportTicket, LogEvent, EventBundle}

-- `Field(min_length=lo, max_length=hi)`
abbrev within : ℕ → ℕ → String → Bool
within lo hi s = leb lo (length (codes s)) && leb (length (codes s)) hi

unfoldable pub valid_ticket : SupportTicket → Bool
valid_ticket t =
    within 3 64 t.ticket_id
    && within 8 160 t.subject
    && within 20 2000 t.description
    && within 2 80 t.requester_role

-- `"@" in value or "\\" in value`
unfoldable pub raw_user_identifier : String → Bool
raw_user_identifier s = any (λ c. c == b'@') (codes s) || any (λ c. c == 92) (codes s)

unfoldable pub valid_log : LogEvent → Bool
unfolding raw_user_identifier
valid_log l =
    within 3 64 l.event_id
    && within 2 80 l.service
    && within 8 1000 l.message
    && within 3 80 l.synthetic_user_id
    && not (raw_user_identifier l.synthetic_user_id)

all_logs : (LogEvent → Bool) → List LogEvent → Bool
all_logs test [] = true
all_logs test (l ∷ ls) = test l && all_logs test ls

-- `len(event_ids) == len(set(event_ids))`
unfoldable pub unique_event_ids : List LogEvent → Bool
unique_event_ids [] = true
unique_event_ids (l ∷ ls) = not (any (λ m. str_eq m.event_id l.event_id) ls) && unique_event_ids ls

unfoldable pub valid_bundle : EventBundle → Bool
unfolding valid_ticket valid_log all_logs unique_event_ids
valid_bundle b =
    within 6 80 b.correlation_id
    && valid_ticket b.ticket
    && leb 1 (length b.logs)
    && all_logs valid_log b.logs
    && unique_event_ids b.logs
