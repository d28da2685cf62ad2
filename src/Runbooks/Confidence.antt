-- ===== src/Runbooks/Confidence.antt =====
-- What the confidence of a runbook's classification says of the logs.
use incident_intelligence_pl.Prelude.{
  ◌≡◌, refl, sym, ap, ◌∙◌, String, Bool, true, false, not, ◌&&◌, ◌||◌, List, [], ◌∷◌, arith, any,
  leb, if◌then◌else◌, Bool-cases, inl, inr,
}
use incident_intelligence_pl.Schemas.{EventBundle}
use incident_intelligence_pl.AuthFailures.{denies_mfa, locks_out, member, signals_for_bundle}
use incident_intelligence_pl.AuthFailures.Signals.{
  highest_count, signals_for_bundle-exact, signals_for_bundle-none,
}
use incident_intelligence_pl.Classification.{is_empty}
use incident_intelligence_pl.Runbooks.{
  authentication_failure, uncategorized, low, medium, high, classify_incident,
  confidence_for_signals,
}

member-is_empty : (s : String) (ss : List String) → is_empty ss ≡ true → member s ss ≡ false
member-is_empty s [] h = refl
member-is_empty s (t ∷ ss) h = absurd (ground (arith, h))

none_of : (a b c : Bool) → (a || b || c) ≡ false → (a ≡ false) × (b ≡ false) × (c ≡ false)
none_of a b c h = (ground (arith, h), ground (arith, h), ground (arith, h))

-- Signals are empty exactly if no log shows anything.
is_empty-signals :
    (bundle : EventBundle)
    → is_empty (signals_for_bundle bundle)
      ≡ not (
          any denies_mfa bundle.logs
          || any locks_out bundle.logs
          || leb 3 (highest_count bundle.logs))
is_empty-signals bundle =
    let (mfa, lock, many, risk) = signals_for_bundle-exact bundle in
    let signals = signals_for_bundle bundle in
    let denied = any denies_mfa bundle.logs in
    let locked = any locks_out bundle.logs in
    let repeated = leb 3 (highest_count bundle.logs) in
    elim (Bool-cases (denied || locked || repeated)) [
      | inr quiet ↦
          let (d, l, r) = none_of denied locked repeated quiet in
          rw quiet (ap is_empty (signals_for_bundle-none bundle d l r))
      | inl shown ↦ elim (Bool-cases (is_empty signals)) [
        | inr e ↦ rw (shown, e) refl
        | inl e ↦ absurd (
            clash denied locked repeated shown (sym mfa ∙ member-is_empty "mfa_denied" signals e)
              (sym lock ∙ member-is_empty "account_lockout" signals e)
              (sym many ∙ member-is_empty "repeated_failures" signals e))
      ]
    ]
  where
    clash : (a b c : Bool) → (a || b || c) ≡ true → a ≡ false → b ≡ false → c ≡ false → ⊥
    clash a b c h ha hb hc = ground (arith, h, ha, hb, hc)

-- The classification behind a runbook, described from the logs without their order: an incident is an
-- authentication failure exactly if a log denies an MFA prompt or reports a lockout or the highest
-- failure count is at least 3; the confidence is high exactly with a lockout and repeated failures,
-- medium otherwise with an MFA denial, and low without either.
pub classify_incident-exact :
    (bundle : EventBundle)
    → let denied = any denies_mfa bundle.logs in
      let locked = any locks_out bundle.logs in
      let repeated = leb 3 (highest_count bundle.logs) in
      let c = classify_incident bundle in
      (c.category
        ≡ (if denied || locked || repeated then authentication_failure else uncategorized))
      × (c.confidence ≡ (if locked && repeated then high else if denied then medium else low))
unfolding classify_incident confidence_for_signals
classify_incident-exact bundle =
    let (mfa, lock, many, risk) = signals_for_bundle-exact bundle in
    let empty = is_empty-signals bundle in
    let denied = any denies_mfa bundle.logs in
    let locked = any locks_out bundle.logs in
    let repeated = leb 3 (highest_count bundle.logs) in
    elim (Bool-cases (denied || locked || repeated)) [
      | inl shown ↦ rw (empty, shown, lock, many, mfa) (refl, refl)
      | inr quiet ↦
          let (d, l, r) = none_of denied locked repeated quiet in
          rw (empty, quiet, d, l) (refl, refl)
    ]
