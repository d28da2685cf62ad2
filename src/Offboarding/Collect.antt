-- ===== src/Offboarding/Collect.antt =====
-- What the loop over the access events collects, whatever their order.
use incident_intelligence_pl.Prelude.{
  ◌≡◌, refl, sym, ap, ◌⊎◌, Bool-cases, String, Bool, true, false, Option, none, some, List, [], ◌∷◌,
  ◌++◌, Option-cases, inl, inr, str_eq, ltb, subst, arith,
}
use incident_intelligence_pl.Prelude.Ordered.{In}
use incident_intelligence_pl.Prelude.Unique.{Within, NoRepeats}
use incident_intelligence_pl.Failure.{
  Failure, value_error_with, class_name, Result, ok, err, ◌>>◌, Result-cases, require,
}
use incident_intelligence_pl.Offboarding.{
  DisabledIdentity, LinkedEndpoint, AccessEvent, same_event, check_event, get_event, put_event,
  collect_events,
}
use incident_intelligence_pl.Offboarding.Events.{
  Identified, Stored, put_event-Stored, In-append_last, get_event-In, same_event_refl,
}

module _ (identity : DisabledIdentity) (endpoint : LinkedEndpoint) where
  pub record Collected (es events out : List AccessEvent) : Type 0 where
    pub checked : (e : AccessEvent) → In e es → check_event identity endpoint e ≡ ok tt
    pub taken : Within es out
    pub kept : Within events out
    pub no_other : (e : AccessEvent) → In e out → In e events ⊎ In e es
    pub identified : Identified out
    pub once : NoRepeats out

  pub collect_events-Collected :
      (es events out : List AccessEvent)
      → Identified events
      → NoRepeats events
      → collect_events identity endpoint es events ≡ ok out
      → Collected es events out
  unfolding collect_events
  collect_events-Collected [] events out known n h =
      subst (Collected [] events) (from_ok h) record {
        checked = λ e i. absurd i;
        taken = λ e i. absurd i;
        kept = λ e i. i;
        no_other = λ e i. inl i;
        identified = known;
        once = n;
      }
    where
      from_ok : {a b : List AccessEvent} → ok a ≡ ok b → a ≡ b
      from_ok e = cc
  collect_events-Collected (e ∷ es) events out known n h =
      elim (Result-cases (check_event identity endpoint e)) [
        | inl (f, c) ↦ absurd (impossible f (rw c at h))
        | inr (u, c) ↦ elim (Result-cases (put_event (get_event e.event_id events) e events)) [
          | inl (f, p) ↦ absurd (impossible f (rw (c, p) at h))
          | inr (events', p) ↦
              let s : Stored e events events' = put_event-Stored e events events' known n p in
              joined events' c s
                (collect_events-Collected es events' out s.identified s.once (rw (c, p) at h))
        ]
      ]
    where
      impossible : (f : Failure) → err f ≡ ok out → ⊥
      impossible f e = cc

      joined :
          (events' : List AccessEvent) {u : Unit {0}}
          → check_event identity endpoint e ≡ ok u
          → Stored e events events'
          → Collected es events' out
          → Collected (e ∷ es) events out
      joined events' c s r = record {
        checked = λ a i. elim i [ inl q ↦ rw q c | inr j ↦ r.checked a j ];
        taken = λ a i. elim i [ inl q ↦ rw q (r.kept e s.now) | inr j ↦ r.taken a j ];
        kept = λ a i. r.kept a (s.kept a i);
        no_other = λ a i. elim (r.no_other a i) [
          | inl j ↦ elim (s.no_other a j) [ inl k ↦ inl k | inr q ↦ inr (inl q) ]
          | inr j ↦ inr (inr j)
        ];
        identified = r.identified;
        once = r.once;
      }

  check_event-err :
      (e : AccessEvent) (f : Failure)
      → check_event identity endpoint e ≡ err f
      → class_name f ≡ "ValueError"
  unfolding check_event class_name
  check_event-err e f h =
      test (str_eq e.synthetic_user_id identity.synthetic_user_id) _ _ f
        (test (str_eq e.synthetic_endpoint_id endpoint.synthetic_endpoint_id) _ _ f
          (test (ltb identity.disabled_at e.observed_at) _ _ f (last _ _)))
        h
    where
      last :
          (b : Bool) (message : String)
          → require b (value_error_with message) ≡ err f
          → class_name f ≡ "ValueError"
      last true message q = absurd cc
      last false message q =
          let same : value_error_with message ≡ f = cc in sym (ap class_name same)

      test :
          (b : Bool) (message : String) (rest : Result (Unit {0})) (g : Failure)
          → (rest ≡ err g → class_name g ≡ "ValueError")
          → (require b (value_error_with message) >> rest) ≡ err g
          → class_name g ≡ "ValueError"
      test true message rest g more q = more q
      test false message rest g more q =
          let same : value_error_with message ≡ g = cc in sym (ap class_name same)

  put_event-err :
      (found : Option AccessEvent) (e : AccessEvent) (events : List AccessEvent) (f : Failure)
      → put_event found e events ≡ err f
      → class_name f ≡ "ValueError"
  unfolding put_event class_name
  put_event-err none e events f h = absurd cc
  put_event-err (some old) e events f h = elim (Bool-cases (same_event old e)) [
    | inl s ↦ absurd (ground (arith, s, h))
    | inr s ↦
        let same : value_error_with "conflicting duplicate event_id in synthetic access events"
            ≡ f =
          ground (arith, s, h) in
        sym (ap class_name same)
  ]

  pub collect_events-err :
      (es events : List AccessEvent) (f : Failure)
      → collect_events identity endpoint es events ≡ err f
      → class_name f ≡ "ValueError"
  unfolding collect_events
  collect_events-err [] events f h = absurd cc
  collect_events-err (e ∷ es) events f h = elim (Result-cases (check_event identity endpoint e)) [
    | inl (g, c) ↦ subst named (same (rw c at h)) (check_event-err e g c)
    | inr (u, c) ↦ elim (Result-cases (put_event (get_event e.event_id events) e events)) [
      | inl (g, p) ↦
          subst named (same (rw (c, p) at h))
            (put_event-err (get_event e.event_id events) e events g p)
      | inr (events', p) ↦ collect_events-err es events' f (rw (c, p) at h)
    ]
  ]
    where
      named : Failure → Type 0
      named g = class_name g ≡ "ValueError"

      same : {g : Failure} → Path (Result (List AccessEvent)) (err g) (err f) → g ≡ f
      same q = cc

  -- The loop ends without an exception if each event passes its tests and an identifier names one event.
  pub collect_events-total :
      (pool es events : List AccessEvent)
      → Identified pool
      → ((e : AccessEvent) → In e pool → check_event identity endpoint e ≡ ok tt)
      → Within es pool
      → Within events pool
      → (out : List AccessEvent) × (collect_events identity endpoint es events ≡ ok out)
  unfolding collect_events put_event
  collect_events-total pool [] events known good w v = (events, refl)
  collect_events-total pool (e ∷ es) events known good w v =
      elim (Option-cases (get_event e.event_id events)) [
        | inl g ↦
            let (out, q) =
              collect_events-total pool es (events ++ (e ∷ [])) known good (λ a i. w a (inr i))
                (grown pool events e v (w e (inl refl))) in
            (out, rw (good e (w e (inl refl)), g) q)
        | inr (old, g) ↦
            let (i, k) = get_event-In e.event_id events old g in
            let same : old ≡ e = known old e (v old i) (w e (inl refl)) k in
            let (out, q) = collect_events-total pool es events known good (λ a i. w a (inr i)) v in
            (out, rw (good e (w e (inl refl)), g, same, same_event_refl e) q)
      ]
    where
      grown :
          (pool events : List AccessEvent) (e : AccessEvent)
          → Within events pool
          → In e pool
          → Within (events ++ (e ∷ [])) pool
      grown pool events e v i a j = elim (In-append_last a e events j) [
        | inl k ↦ v a k
        | inr q ↦ rw q i
      ]
