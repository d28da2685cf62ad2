-- ===== src/Offboarding/Events.antt =====
-- What the loop over the access events collects, and when it raises.
use incident_intelligence_pl.Prelude.{
  ℕ, ◌≡◌, refl, sym, ap, ◌∙◌, ◌⊎◌, String, true, none, some, List, [], ◌∷◌, ◌++◌, arith, str_eq,
  eq_iff, eq_refl, Bool-cases, Option-cases, inl, inr, if◌then◌else◌, ◌==◌, subst,
}
use incident_intelligence_pl.Prelude.Ordered.{In}
use incident_intelligence_pl.Prelude.Unique.{Within, NoRepeats}
use incident_intelligence_pl.Failure.{value_error_with, ok, err}
use incident_intelligence_pl.Offboarding.{
  AccessResult, AccessEvent, allowed, denied, same_result, same_event, get_event, put_event,
}

-- Events of one identifier are one event.
abbrev pub Identified : List AccessEvent → Type 0
Identified events =
    (e f : AccessEvent) → In e events → In f events → e.event_id ≡ f.event_id → e ≡ f

same_result-eq : (a b : AccessResult) → same_result a b ≡ true → a ≡ b
same_result-eq allowed allowed h = refl
same_result-eq denied denied h = refl
same_result-eq allowed denied h = cc
same_result-eq denied allowed h = cc

same_event_iff : (e f : AccessEvent) → (same_event e f ≡ true) → e ≡ f
unfolding same_event
same_event_iff e f h = ground (
  arith,
  eq_iff e.event_id f.event_id,
  eq_iff e.synthetic_user_id f.synthetic_user_id,
  eq_iff e.synthetic_endpoint_id f.synthetic_endpoint_id,
  same_result-eq e.result f.result,
)

same_number : (n : ℕ) → (n == n) ≡ true
same_number n = ground arith

same_result_refl : (a : AccessResult) → same_result a a ≡ true
same_result_refl allowed = refl
same_result_refl denied = refl

pub same_event_refl : (e : AccessEvent) → same_event e e ≡ true
unfolding same_event
same_event_refl e =
    rw
      (
        eq_refl e.event_id,
        same_number e.observed_at,
        eq_refl e.synthetic_user_id,
        eq_refl e.synthetic_endpoint_id,
        same_result_refl e.result,
      )
      refl

pub get_event-In :
    (event_id : String) (events : List AccessEvent) (e : AccessEvent)
    → get_event event_id events ≡ some e
    → In e events × (e.event_id ≡ event_id)
unfolding get_event
get_event-In event_id [] e h = absurd (ground arith)
get_event-In event_id (f ∷ events) e h = elim (Bool-cases (str_eq f.event_id event_id)) [
  | inl s ↦
      let same : f ≡ e = ground (arith, s, h) in
      (inl (sym same), ap (λ g. g.event_id) (sym same) ∙ (eq_iff f.event_id event_id).0 s)
  | inr s ↦ let (i, k) = get_event-In event_id events e (ground (arith, s, h)) in (inr i, k)
]

get_event-none :
    (event_id : String) (events : List AccessEvent) (e : AccessEvent)
    → get_event event_id events ≡ none
    → In e events
    → e.event_id ≡ event_id
    → ⊥
unfolding get_event
get_event-none event_id [] e h i k = i
get_event-none event_id (f ∷ events) e h i k = elim (Bool-cases (str_eq f.event_id event_id)) [
  | inl s ↦ ground (arith, s, h)
  | inr s ↦ elim i [
    | inl p ↦ ground (arith, s, p, k, (eq_iff f.event_id event_id).1)
    | inr j ↦ get_event-none event_id events e (ground (arith, s, h)) j k
  ]
]

pub In-append_last :
    (e f : AccessEvent) (events : List AccessEvent)
    → In e (events ++ (f ∷ []))
    → In e events ⊎ (e ≡ f)
In-append_last e f [] (inl p) = inr p
In-append_last e f [] (inr i) = absurd i
In-append_last e f (g ∷ events) (inl p) = inl (inl p)
In-append_last e f (g ∷ events) (inr i) = elim (In-append_last e f events i) [
  | inl j ↦ inl (inr j)
  | inr p ↦ inr p
]

append_last-In :
    (f : AccessEvent) (events : List AccessEvent)
    → Within events (events ++ (f ∷ [])) × In f (events ++ (f ∷ []))
append_last-In f [] = (λ e i. absurd i, inl refl)
append_last-In f (g ∷ events) =
    let (w, i) = append_last-In f events in
    (λ e j. elim j [ inl p ↦ inl p | inr k ↦ inr (w e k) ], inr i)

NoRepeats-append_last :
    (f : AccessEvent) (events : List AccessEvent)
    → (In f events → ⊥)
    → NoRepeats events
    → NoRepeats (events ++ (f ∷ []))
NoRepeats-append_last f [] once n = (λ i. i, tt)
NoRepeats-append_last f (g ∷ events) once n = (
  λ i. elim (In-append_last g f events i) [ inl j ↦ n.0 j | inr p ↦ once (inl (sym p)) ],
  NoRepeats-append_last f events (λ i. once (inr i)) n.1,
)

-- What storing one event does.
pub record Stored (event : AccessEvent) (events events' : List AccessEvent) : Type 0 where
  pub now : In event events'
  pub kept : Within events events'
  pub no_other : (e : AccessEvent) → In e events' → In e events ⊎ (e ≡ event)
  pub identified : Identified events'
  pub once : NoRepeats events'

pub put_event-Stored :
    (event : AccessEvent) (events events' : List AccessEvent)
    → Identified events
    → NoRepeats events
    → put_event (get_event event.event_id events) event events ≡ ok events'
    → Stored event events events'
unfolding put_event
put_event-Stored event events events' known n h =
    elim (Option-cases (get_event event.event_id events)) [
      | inl g ↦ added g (rw g at h)
      | inr (old, g) ↦ found old g (rw g at h)
    ]
  where
    from_ok : {A : Type 0} {a b : A} → ok a ≡ ok b → a ≡ b
    from_ok e = cc

    added :
        get_event event.event_id events ≡ none
        → ok (events ++ (event ∷ [])) ≡ ok events'
        → Stored event events events'
    added g e =
        let (w, i) = append_last-In event events in
        let new : (a : AccessEvent) → In a events → a.event_id ≡ event.event_id → ⊥ =
          λ a j k. get_event-none event.event_id events a g j k in
        subst (Stored event events) (from_ok e) record {
          now = i;
          kept = w;
          no_other = λ a j. In-append_last a event events j;
          identified = λ a b j k q. elim (In-append_last a event events j) [
            | inl ja ↦ elim (In-append_last b event events k) [
              | inl jb ↦ known a b ja jb q
              | inr eb ↦ absurd (new a ja (q ∙ ap (λ x. x.event_id) eb))
            ]
            | inr ea ↦ elim (In-append_last b event events k) [
              | inl jb ↦ absurd (new b jb (sym q ∙ ap (λ x. x.event_id) ea))
              | inr eb ↦ ea ∙ sym eb
            ]
          ];
          once = NoRepeats-append_last event events (λ j. new event j refl) n;
        }

    found :
        (old : AccessEvent)
        → get_event event.event_id events ≡ some old
        → (if same_event old event
            then ok events
            else err (value_error_with "conflicting duplicate event_id in synthetic access events"))
          ≡ ok events'
        → Stored event events events'
    found old g e = elim (Bool-cases (same_event old event)) [
      | inr d ↦ absurd (ground (arith, d, e))
      | inl d ↦
          let (i, k) = get_event-In event.event_id events old g in
          subst (Stored event events) (from_ok (rw d at e)) record {
            now = subst (λ x. In x events) (same_event_iff old event d) i;
            kept = λ a j. j;
            no_other = λ a j. inl j;
            identified = known;
            once = n;
          }
    ]
