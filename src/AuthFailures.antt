-- ===== src/AuthFailures.antt =====
-- auth_failures.py: the signals of an authentication failure in the logs of a bundle.
pub mod Signals
use incident_intelligence_pl.Prelude.{
  ℕ, max, String, Bool, true, false, ◌&&◌, ◌||◌, Option, none, some, List, [], ◌∷◌, ◌++◌, any, map,
  codes, lower, contains, str_eq, leb, if◌then◌else◌,
}
use incident_intelligence_pl.Prelude.Dicts
use incident_intelligence_pl.Schemas.{
  ℤ, pos, negsuc, AttributeValue, text, int, float, bool_true, bool_false, null, LogEvent,
  EventBundle,
}

-- `value == s`
abbrev pub is_text : String → Option AttributeValue → Bool
is_text s (some (text t)) = str_eq t s
is_text s _ = false

-- `value is True`
abbrev pub is_true : Option AttributeValue → Bool
is_true (some bool_true) = true
is_true _ = false

-- `isinstance(value, int)`, which holds for a `bool` too.
abbrev pub is_int : Option AttributeValue → Bool
is_int (some (int n)) = true
is_int (some bool_true) = true
is_int (some bool_false) = true
is_int _ = false

-- `max(failure_count, int(value))` for a count that is not negative.
abbrev pub raise_count : Option AttributeValue → ℕ → ℕ
raise_count (some (int (pos n))) failure_count = max failure_count n
raise_count (some bool_true) failure_count = max failure_count 1
raise_count _ failure_count = failure_count

-- `"mfa" in str(value)`, where a missing key counts as the empty text. The digits of an integer
-- have no letter.
unfoldable pub mentions_mfa : Option AttributeValue → Bool
mentions_mfa none = contains (codes "mfa") (codes "")
mentions_mfa (some (text s)) = contains (codes "mfa") (codes s)
mentions_mfa (some (int n)) = false
mentions_mfa (some (float s)) = contains (codes "mfa") (codes s)
mentions_mfa (some bool_true) = contains (codes "mfa") (codes "True")
mentions_mfa (some bool_false) = contains (codes "mfa") (codes "False")
mentions_mfa (some null) = contains (codes "mfa") (codes "None")

abbrev pub attribute : String → LogEvent → Option AttributeValue
attribute name log = Dicts.get name log.attributes

unfoldable pub lockout_in_message : LogEvent → Bool
lockout_in_message log = contains (codes "lockout") (lower (codes log.message))

unfoldable pub denies_mfa : LogEvent → Bool
denies_mfa log =
    is_text "denied" (attribute "result" log) && mentions_mfa (attribute "auth_method" log)

unfoldable pub locks_out : LogEvent → Bool
locks_out log = is_true (attribute "lockout" log) || lockout_in_message log

-- `if test: signals.append(signal)`
abbrev pub append_if : Bool → String → List String → List String
append_if true signal signals = signals ++ (signal ∷ [])
append_if false signal signals = signals

-- The loop of `_signals_for_bundle`: the signals and the highest failure count.
unfoldable pub scan_logs : List LogEvent → List String → ℕ → List String × ℕ
scan_logs [] signals failure_count = (signals, failure_count)
scan_logs (log ∷ logs) signals failure_count =
    scan_logs logs
      (append_if (locks_out log) "account_lockout"
        (append_if (denies_mfa log) "mfa_denied" signals))
      (raise_count (attribute "failure_count" log) failure_count)

abbrev pub member : String → List String → Bool
member s ss = any (λ t. str_eq t s) ss

-- `list(dict.fromkeys(ss))` behind the keys seen so far.
unfoldable pub first_of_each : List String → List String → List String
first_of_each seen [] = []
first_of_each seen (s ∷ ss) =
    let skipped = first_of_each seen ss in
    let taken = first_of_each (s ∷ seen) ss in if member s seen then skipped else s ∷ taken

unfoldable pub signals_for_bundle : EventBundle → List String
unfolding scan_logs first_of_each
signals_for_bundle bundle =
    let (signals, failure_count) = scan_logs bundle.logs [] 0 in
    first_of_each [] (append_if (leb 3 failure_count) "repeated_failures" signals)

pub data RiskLevel : Type 0 where
  low medium high : RiskLevel

unfoldable pub risk_level : List String → RiskLevel
risk_level signals =
    if member "account_lockout" signals || member "repeated_failures" signals
    then high
    else if member "mfa_denied" signals
    then medium
    else low
