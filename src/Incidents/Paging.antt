-- ===== src/Incidents/Paging.antt =====
-- `list_incidents` of postgres.py with the cursor of incidents.py. Pydantic's JSON of a cursor and
-- Python's base64 are the operations of a `CursorLibrary`. The order of identifiers is that of the numbers.
use incident_intelligence_pl.Prelude.{
  ℕ, ◌+◌, ◌-◌, ◌%◌, String, Bool, true, false, ◌&&◌, ◌||◌, Option, none, some, List, [], ◌∷◌,
  length, take, map, codes, leb, ltb, ◌==◌, str_eq, filter_by, sort_by,
}
use Prim.Native.String.{◌++◌}
use incident_intelligence_pl.Failure.{
  value_error, invalid_cursor, Result, ok, ◌>>=◌, ◌>>◌, require, Availability, engine_connect,
  rethrow, hide_sql,
}
use incident_intelligence_pl.Database.{Database, IncidentRow}
use incident_intelligence_pl.Schemas.{Priority, low, medium, high, urgent}
use incident_intelligence_pl.Auth.Tokens.{rstrip_equals, equals, or_raise}
use incident_intelligence_pl.Incidents.{IncidentSummary, summary_from_row}

pub record IncidentPage : Type 0 where
  pub items : List IncidentSummary
  pub next_cursor : Option String

-- `_CursorPayload`
pub record CursorPayload : Type 0 where
  pub created_at : ℕ
  pub incident_id : ℕ

pub record CursorLibrary : Type 1 where
  pub Bytes : Type 0
  -- `payload.model_dump_json().encode("utf-8")`, and `_CursorPayload.model_validate_json`
  pub model_dump_json : CursorPayload → Bytes
  pub model_validate_json : Bytes → Option CursorPayload
  -- `base64.urlsafe_b64encode(…).decode("ascii")`, and `base64.b64decode` with its alphabet
  pub urlsafe_b64encode : Bytes → String
  pub b64decode : String → Option Bytes

unfoldable pub encode_incident_cursor : CursorLibrary → IncidentSummary → String
encode_incident_cursor lib item = rstrip_equals (
    lib.urlsafe_b64encode (
      lib.model_dump_json
        (record { created_at = item.created_at; incident_id = item.incident_id })))

unfoldable pub decode_incident_cursor : CursorLibrary → String → Result CursorPayload
decode_incident_cursor lib cursor = do
  require (leb 1 (length (codes cursor)) && leb (length (codes cursor)) 512) invalid_cursor
  decoded ←
      or_raise invalid_cursor
        (lib.b64decode (cursor ++ equals ((4 - length (codes cursor) % 4) % 4)))
  or_raise invalid_cursor (lib.model_validate_json decoded)

-- What the column `priority` stores.
abbrev pub priority_name : Priority → String
priority_name low = "low"
priority_name medium = "medium"
priority_name high = "high"
priority_name urgent = "urgent"

abbrev pub equals_text : Option String → String → Bool
equals_text none value = true
equals_text (some wanted) value = str_eq value wanted

-- Strictly behind the position in the order of the pages.
abbrev pub behind : CursorPayload → IncidentRow → Bool
behind position row =
    ltb row.created_at position.created_at
    || (row.created_at == position.created_at && ltb row.id position.incident_id)

abbrev pub behind_cursor : Option CursorPayload → IncidentRow → Bool
behind_cursor none row = true
behind_cursor (some position) row = behind position row

-- `order_by(created_at.desc(), id.desc())`
abbrev pub newer : IncidentRow → IncidentRow → Bool
newer r s = ltb s.created_at r.created_at || (r.created_at == s.created_at && leb s.id r.id)

abbrev pub position_of : CursorLibrary → Option String → Result (Option CursorPayload)
position_of lib none = ok none
position_of lib (some cursor) = decode_incident_cursor lib cursor >>= λ position. ok (some position)

abbrev pub last_item : List IncidentSummary → Option IncidentSummary
last_item [] = none
last_item (item ∷ []) = some item
last_item (item ∷ next ∷ items) = last_item (next ∷ items)

-- `encode_incident_cursor(items[-1]) if len(rows) > limit else None`; the items are not empty.
abbrev pub cursor_after : CursorLibrary → Bool → Option IncidentSummary → Option String
cursor_after lib false item = none
cursor_after lib true none = none
cursor_after lib true (some item) = some (encode_incident_cursor lib item)

unfoldable pub page_of : CursorLibrary → ℕ → List IncidentRow → IncidentPage
page_of lib limit rows =
    let items = map summary_from_row (take limit rows) in
    record {
      items = items;
      next_cursor = cursor_after lib (ltb limit (length rows)) (last_item items);
    }

-- The rows of the statement, before its `LIMIT`.
unfoldable pub selected :
    Option String → Option String → Option CursorPayload → Database → List IncidentRow
selected status priority position db = sort_by newer (
    filter_by
      (λ row.
        equals_text status row.status
        && equals_text priority (priority_name row.priority)
        && behind_cursor position row)
      db.incidents)

unfoldable pub list_incidents :
    CursorLibrary
    → Availability
    → ℕ
    → Option String
    → Option String
    → Option String
    → Database
    → Result IncidentPage
list_incidents lib a limit cursor status priority db = do
  require (leb 1 limit && leb limit 100) value_error
  position ← position_of lib cursor
  rows ←
      rethrow hide_sql
        (engine_connect a (λ d. ok (take (limit + 1) (selected status priority position d))) db)
  ok (page_of lib limit rows)

-- `EmptyIncidentRepository.list_incidents`
unfoldable pub list_no_incidents : CursorLibrary → Option String → Result IncidentPage
list_no_incidents lib cursor = do
  position ← position_of lib cursor
  ok (record { items = []; next_cursor = none })
