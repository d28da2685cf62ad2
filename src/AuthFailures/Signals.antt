-- ===== src/AuthFailures/Signals.antt =====
-- Which signals a bundle has, read off its logs.
use incident_intelligence_pl.Prelude.{
  ℕ, max, ◌≡◌, refl, ap, ◌∙◌, String, Bool, true, false, ◌&&◌, ◌||◌, Option, none, some, List, [],
  ◌∷◌, any, arith, str_eq, eq_iff, eq_refl, leb, if◌then◌else◌, Bool-cases, inl, inr,
}
use incident_intelligence_pl.Schemas.{
  pos, negsuc, AttributeValue, text, int, float, bool_true, bool_false, null, LogEvent, EventBundle,
}
use incident_intelligence_pl.AuthFailures.{
  attribute, denies_mfa, locks_out, raise_count, append_if, scan_logs, member, first_of_each,
  signals_for_bundle, risk_level, low, medium, high,
}

-- The highest failure count that a log reports.
unfoldable pub highest_count : List LogEvent → ℕ
highest_count [] = 0
highest_count (log ∷ logs) =
    max (raise_count (attribute "failure_count" log) 0) (highest_count logs)

member-append_if :
    (test : Bool) (signal s : String) (signals : List String)
    → member s (append_if test signal signals) ≡ (member s signals || (test && str_eq signal s))
member-append_if false signal s signals = ground arith
member-append_if true signal s [] = ground arith
member-append_if true signal s (t ∷ signals) =
    ground (arith, member-append_if true signal s signals)

raise_count-max : (v : Option AttributeValue) (n : ℕ) → raise_count v n ≡ max n (raise_count v 0)
raise_count-max none n = omega arith
raise_count-max (some (text s)) n = omega arith
raise_count-max (some (int (pos k))) n = omega arith
raise_count-max (some (int (negsuc k))) n = omega arith
raise_count-max (some (float s)) n = omega arith
raise_count-max (some bool_true) n = omega arith
raise_count-max (some bool_false) n = omega arith
raise_count-max (some null) n = omega arith

scan_logs-count :
    (logs : List LogEvent) (signals : List String) (n : ℕ)
    → (scan_logs logs signals n).1 ≡ max n (highest_count logs)
unfolding scan_logs highest_count
scan_logs-count [] signals n = omega arith
scan_logs-count (log ∷ logs) signals n =
    let count = raise_count (attribute "failure_count" log) n in
    let rest =
      scan_logs-count logs
        (append_if (locks_out log) "account_lockout"
          (append_if (denies_mfa log) "mfa_denied" signals))
        count in
    omega (arith, rest, raise_count-max (attribute "failure_count" log) n)

scan_logs-member :
    (s : String) (logs : List LogEvent) (signals : List String) (n : ℕ)
    → member s (scan_logs logs signals n).0 ≡ (
        member s signals
        || (any denies_mfa logs && str_eq "mfa_denied" s)
        || (any locks_out logs && str_eq "account_lockout" s))
unfolding scan_logs
scan_logs-member s [] signals n = ground arith
scan_logs-member s (log ∷ logs) signals n =
    let denied = append_if (denies_mfa log) "mfa_denied" signals in
    ground (
      arith,
      scan_logs-member s logs (append_if (locks_out log) "account_lockout" denied)
          (raise_count (attribute "failure_count" log) n),
      member-append_if (locks_out log) "account_lockout" s denied,
      member-append_if (denies_mfa log) "mfa_denied" s signals,
    )

member-first_of_each :
    (s : String) (seen ss : List String)
    → member s seen ≡ false
    → member s (first_of_each seen ss) ≡ member s ss
unfolding first_of_each
member-first_of_each s seen [] h = refl
member-first_of_each s seen (t ∷ ss) h = elim (Bool-cases (str_eq t s)) [
  | inl e ↦
      let fresh : member t seen ≡ false = ap (λ k. member k seen) ((eq_iff t s).0 e) ∙ h in
      rw (fresh, e) refl
  | inr e ↦
      let skipped = member-first_of_each s seen ss h in
      let taken = member-first_of_each s (t ∷ seen) ss (ground (arith, e, h)) in
      elim (Bool-cases (member t seen)) [
        | inl old ↦ rw (old, e) skipped
        | inr new ↦ rw (new, e) taken
      ]
]

signals-member :
    (s : String) (bundle : EventBundle)
    → member s (signals_for_bundle bundle) ≡ (
        ((any denies_mfa bundle.logs && str_eq "mfa_denied" s)
          || (any locks_out bundle.logs && str_eq "account_lockout" s))
        || (leb 3 (highest_count bundle.logs) && str_eq "repeated_failures" s))
unfolding signals_for_bundle
signals-member s bundle =
    let found = scan_logs bundle.logs [] 0 in
    member-first_of_each s [] (append_if (leb 3 found.1) "repeated_failures" found.0) refl
    ∙ member-append_if (leb 3 found.1) "repeated_failures" s found.0
    ∙ ground (arith, scan_logs-member s bundle.logs [] 0, scan_logs-count bundle.logs [] 0)

-- The signals of a bundle are those of its logs, in any order: an MFA denial is signalled exactly if
-- a log denies one, a lockout exactly if a log reports one, and repeated failures exactly if the
-- highest failure count of a log is at least 3; and the risk is high with a lockout or repeated
-- failures, medium with an MFA denial alone, and low otherwise.
pub signals_for_bundle-exact :
    (bundle : EventBundle)
    → let signals = signals_for_bundle bundle in
      let denied = any denies_mfa bundle.logs in
      let locked = any locks_out bundle.logs in
      let repeated = leb 3 (highest_count bundle.logs) in
      (member "mfa_denied" signals ≡ denied)
      × (member "account_lockout" signals ≡ locked)
      × (member "repeated_failures" signals ≡ repeated)
      × (risk_level signals ≡ (if locked || repeated then high else if denied then medium else low))
unfolding risk_level
signals_for_bundle-exact bundle =
    let mfa = signals-member "mfa_denied" bundle in
    let lock = signals-member "account_lockout" bundle in
    let many = signals-member "repeated_failures" bundle in
    (
      ground (arith, mfa),
      ground (arith, lock),
      ground (arith, many),
      ground (arith, mfa, lock, many),
    )

-- A bundle without a log that shows an authentication failure has no signal.
pub signals_for_bundle-none :
    (bundle : EventBundle)
    → any denies_mfa bundle.logs ≡ false
    → any locks_out bundle.logs ≡ false
    → leb 3 (highest_count bundle.logs) ≡ false
    → signals_for_bundle bundle ≡ []
signals_for_bundle-none bundle d l r =
    no_member (signals_for_bundle bundle) (λ s. ground (arith, signals-member s bundle, d, l, r))
  where
    no_member : (ss : List String) → ((s : String) → member s ss ≡ false) → ss ≡ []
    no_member [] h = refl
    no_member (s ∷ ss) h = absurd (ground (arith, h s, eq_refl s))
