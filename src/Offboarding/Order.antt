-- ===== src/Offboarding/Order.antt =====
-- What the order in which a fixture lists its access events, and their repetition, can change.
use incident_intelligence_pl.Prelude.{
  ◌⊎◌, Bool, true, false, ◌≡◌, refl, sym, ap, ◌∙◌, List, [], inl, inr, arith, str_eq,
}
use incident_intelligence_pl.Prelude.Ordered.{IsOrder}
use incident_intelligence_pl.Prelude.Unique.{Within, Separates, NoRepeats, sort_by_unique}
use incident_intelligence_pl.Prelude.TextOrder.{text_leb_trans, text_leb-total, text_leb-antisym}
use incident_intelligence_pl.Failure.{
  Failure, Result, class_name, value_error_with, ok, err, ◌>>=◌, ◌>>◌, Result-cases, require,
}
use incident_intelligence_pl.Schemas.{EventBundle}
use incident_intelligence_pl.Offboarding.{
  DisabledIdentity, LinkedEndpoint, AccessEvent, OffboardingFixture, collect_events, earlier,
  bundle_of_events, adapt_offboarding_fixture,
}
use incident_intelligence_pl.Offboarding.Events.{Identified}
use incident_intelligence_pl.Offboarding.Collect.{
  Collected, collect_events-Collected, collect_events-err, collect_events-total,
}

earlier-IsOrder : IsOrder earlier
earlier-IsOrder = record {
  trans = λ x y z p q. ground (arith, text_leb_trans x.event_id y.event_id z.event_id);
  total = λ x y p. ground (arith, text_leb-total x.event_id y.event_id);
}

earlier-Separates : (events : List AccessEvent) → Identified events → Separates earlier events
earlier-Separates events known x y i j p q =
    known x y i j (ground (arith, text_leb-antisym x.event_id y.event_id))

bundle_of_events-order :
    (source : OffboardingFixture) (xs ys : List AccessEvent)
    → Identified xs
    → NoRepeats xs
    → NoRepeats ys
    → Within xs ys
    → Within ys xs
    → bundle_of_events source xs ≡ bundle_of_events source ys
unfolding bundle_of_events
bundle_of_events-order source xs ys known n m to from =
    rw (sort_by_unique earlier xs ys earlier-IsOrder (earlier-Separates xs known) n m to from) refl

-- The fixture with other access events.
abbrev pub with_events : OffboardingFixture → List AccessEvent → OffboardingFixture
with_events source events = record {
  correlation_id = source.correlation_id;
  ticket = source.ticket;
  identity = source.identity;
  endpoint = source.endpoint;
  access_events = events;
}

module _ (source : OffboardingFixture) (xs ys : List AccessEvent) (to : Within xs ys)
    (from : Within ys xs) where
  agree :
      (us vs : List AccessEvent)
      → Collected source.identity source.endpoint xs [] us
      → Collected source.identity source.endpoint ys [] vs
      → bundle_of_events source us ≡ bundle_of_events source vs
  agree us vs c d =
      bundle_of_events-order source us vs c.identified c.once d.once
        (λ e i. elim (c.no_other e i) [ inl k ↦ absurd k | inr j ↦ d.taken e (to e j) ])
        (λ e i. elim (d.no_other e i) [ inl k ↦ absurd k | inr j ↦ c.taken e (from e j) ])

-- If one list is collected, so is any other of its members.
carried :
    (identity : DisabledIdentity) (endpoint : LinkedEndpoint) (xs ys us : List AccessEvent)
    → Within xs ys
    → Within ys xs
    → collect_events identity endpoint xs [] ≡ ok us
    → (vs : List AccessEvent) × (collect_events identity endpoint ys [] ≡ ok vs)
carried identity endpoint xs ys us to from h =
    let c : Collected identity endpoint xs [] us =
      collect_events-Collected identity endpoint xs [] us (λ e f i. absurd i) tt h in
    collect_events-total identity endpoint xs ys []
      (λ e f i j. c.identified e f (c.taken e i) (c.taken f j)) c.checked from (λ e i. absurd i)

-- Two calls that return the same, or that both raise a `ValueError`.
abbrev pub AgreesUpToMessage : Result EventBundle → Result EventBundle → Type 0
AgreesUpToMessage r s =
    (r ≡ s)
    ⊎ ((f : Failure) × (g : Failure) × (r ≡ err f)
        × (s ≡ err g)
        × (class_name f ≡ "ValueError")
        × (class_name g ≡ "ValueError"))

collected-order :
    (source : OffboardingFixture) (xs ys : List AccessEvent)
    → Within xs ys
    → Within ys xs
    → AgreesUpToMessage
        (collect_events source.identity source.endpoint xs [] >>= bundle_of_events source)
        (collect_events source.identity source.endpoint ys [] >>= bundle_of_events source)
collected-order source xs ys to from =
    elim (Result-cases (collect_events source.identity source.endpoint xs [])) [
      | inr (us, p) ↦
          let (vs, q) = carried source.identity source.endpoint xs ys us to from p in
          inl (rw (p, q) (agree source xs ys to from us vs (all xs us p) (all ys vs q)))
      | inl (f, p) ↦ elim (Result-cases (collect_events source.identity source.endpoint ys [])) [
        | inr (vs, q) ↦
            let (us, r) = carried source.identity source.endpoint ys xs vs from to q in
            absurd (clash (sym p ∙ r))
        | inl (g, q) ↦ inr (
          f,
          g,
          ap (λ r. r >>= bundle_of_events source) p,
          ap (λ r. r >>= bundle_of_events source) q,
          collect_events-err source.identity source.endpoint xs [] f p,
          collect_events-err source.identity source.endpoint ys [] g q,
        )
      ]
    ]
  where
    clash : {f : Failure} {us : List AccessEvent} → err f ≡ ok us → ⊥
    clash e = cc

    all :
        (es out : List AccessEvent)
        → collect_events source.identity source.endpoint es [] ≡ ok out
        → Collected source.identity source.endpoint es [] out
    all es out =
        collect_events-Collected source.identity source.endpoint es [] out (λ e f i. absurd i) tt

-- Two fixtures that differ in their access events only, and list the same events in another order or
-- more than once, are both accepted or both refused. They become the same bundle, or raise the same
-- exception, or each raises a `ValueError`: which test of which event fails first, and so the
-- message, may differ.
pub adapt_offboarding_fixture-order :
    (source : OffboardingFixture) (xs ys : List AccessEvent)
    → Within xs ys
    → Within ys xs
    → AgreesUpToMessage
        (adapt_offboarding_fixture (with_events source xs))
        (adapt_offboarding_fixture (with_events source ys))
unfolding adapt_offboarding_fixture bundle_of_events
adapt_offboarding_fixture-order source xs ys to from =
    by_owner (str_eq source.endpoint.assigned_synthetic_user_id source.identity.synthetic_user_id)
  where
    linked : Bool → Result EventBundle → Result EventBundle
    linked b r =
        require b (value_error_with "endpoint owner must link to the disabled identity") >> r

    by_owner :
        (b : Bool)
        → AgreesUpToMessage
            (linked b
              (collect_events source.identity source.endpoint xs [] >>= bundle_of_events source))
            (linked b
              (collect_events source.identity source.endpoint ys [] >>= bundle_of_events source))
    by_owner true = collected-order source xs ys to from
    by_owner false = inl refl
