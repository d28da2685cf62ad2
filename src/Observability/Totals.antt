-- ===== src/Observability/Totals.antt =====
-- What a snapshot shows after a history of calls.
use incident_intelligence_pl.Prelude.{
  All, Bool-cases, ℕ, ◌+◌, ◌≡◌, refl, ap, ◌∙◌, String, Bool, true, false, Option, none, some, List,
  [], ◌∷◌, arith, str_eq, eq_iff, if◌then◌else◌, ◌==◌, Option-cases, inl, inr, any,
}
use incident_intelligence_pl.Prelude.Dicts
use incident_intelligence_pl.Prelude.Ordered.{In}
use incident_intelligence_pl.Schemas.{ℤ, pos, negsuc}
use incident_intelligence_pl.Observability.{
  Float, Floats, zero_ms, operation_names, MetricsRegistry, zero_counters, new_registry, increment,
  snapshot,
}
use incident_intelligence_pl.Observability.Calls.{
  IsArithmetic, IsNumber, Call, increments, observes, run, positive, total_of, latencies, added,
  count, observed_by, run-observes_taken, run-observes_refused,
}
use incident_intelligence_pl.Observability.Latencies.{
  run-latency, irrefl, run-IsGreatest, latencies-positive, added-positive, mean-positive,
}

abbrev pub add_to : ℕ → Option ℕ → Option ℕ
add_to n none = none
add_to n (some v) = some (v + n)

add_to-zero : (o : Option ℕ) → o ≡ add_to 0 o
add_to-zero none = refl
add_to-zero (some v) = ground arith

increment-get :
    (name operation : String) (amount : ℤ) (r : MetricsRegistry)
    → Dicts.get name (increment operation amount r).1.counters
      ≡ add_to (if str_eq operation name then positive amount else 0) (Dicts.get name r.counters)
unfolding increment
increment-get name operation (negsuc n) r = keep (Dicts.get name r.counters)
  where
    keep : (o : Option ℕ) → o ≡ add_to (if str_eq operation name then 0 else 0) o
    keep none = refl
    keep (some v) = ground arith
increment-get name operation (pos amount) r = elim (Option-cases (Dicts.get operation r.counters)) [
  | inl missing ↦ ground (arith, missing, eq_iff operation name, ap (λ k. Dicts.get k r.counters))
  | inr (v, found) ↦ rw found (
      ground (
        arith,
        found,
        eq_iff operation name,
        ap (λ k. Dicts.get k r.counters),
        Dicts.get-put operation name (v + amount) r.counters,
      ))
]

run-counters :
    (floats : Floats) (name : String) (calls : List Call) (r : MetricsRegistry)
    → Dicts.get name (run floats calls r).counters
      ≡ add_to (total_of name calls) (Dicts.get name r.counters)
unfolding run total_of
run-counters floats name [] r = add_to-zero (Dicts.get name r.counters)
run-counters floats name (increments operation amount ∷ calls) r = ground (
  arith,
  run-counters floats name calls (increment operation amount r).1,
  increment-get name operation amount r,
)
run-counters floats name (observes n ∷ calls) r = elim (Bool-cases (floats.less n zero_ms)) [
  | inl negative ↦
      rw (run-observes_refused floats n calls r negative) (run-counters floats name calls r)
  | inr taken ↦
      rw (run-observes_taken floats n calls r taken)
        (run-counters floats name calls (observed_by floats n r))
]

zero_counters-get :
    (name : String) (names : List String)
    → Dicts.get name (zero_counters names)
      ≡ (if any (λ s. str_eq s name) names then some 0 else none)
unfolding zero_counters Dicts.get
zero_counters-get name [] = refl
zero_counters-get name (s ∷ names) = ground (arith, zero_counters-get name names)

-- With an arithmetic of the stated laws, and after any history of calls on a new registry of which no
-- observed latency is NaN: a name of the seven has as its count the sum of the positive amounts it was
-- incremented by, and no other name has one; the request count is that of the observed latencies that
-- are not negative; the mean is 0.0 if there are none, and otherwise what they add up to from 0.0 in
-- the order of the calls, divided by their count; the maximum is 0.0 or one of them, and none of these
-- is greater; and the mean is not negative.
pub run-snapshot :
    (floats : Floats)
    → IsArithmetic floats
    → (name : String) (calls : List Call) → All (IsNumber floats) (latencies floats calls)
    → let shown = snapshot floats (run floats calls new_registry) in
      let latency = shown.request_latency in
      let observed = latencies floats calls in
      (Dicts.get name shown.counters
        ≡ (if any (λ s. str_eq s name) operation_names then some (total_of name calls) else none))
      × (latency.count ≡ count observed)
      × (latency.mean_ms ≡ (
          if count observed == 0
          then zero_ms
          else floats.divide (added floats zero_ms observed) (count observed)))
      × In latency.max_ms (zero_ms ∷ observed)
      × ((x : Float) → In x (zero_ms ∷ observed) → floats.less latency.max_ms x ≡ false)
      × (floats.less latency.mean_ms zero_ms ≡ false)
unfolding snapshot new_registry
run-snapshot floats laws name calls numbers =
    let r = run floats calls new_registry in
    let (c, t) = run-latency floats calls new_registry in
    let observed = latencies floats calls in
    let c' : r.request_count ≡ count observed = omega (arith, c) in
    let total = added floats zero_ms observed in
    let greatest = run-IsGreatest floats laws calls new_registry laws.zero_between numbers in
    let named =
      run-counters floats name calls new_registry
      ∙ ap (add_to (total_of name calls)) (zero_counters-get name operation_names) in
    (
      named ∙ from_zero (any (λ s. str_eq s name) operation_names) (total_of name calls),
      c',
      rw (c', t) refl,
      greatest.one_of,
      greatest.not_less,
      rw (c', t)
          (mean-positive floats laws (count observed) total (
            added-positive floats laws zero_ms observed (irrefl floats laws zero_ms)
              (latencies-positive floats laws calls))),
    )
  where
    from_zero :
        (known : Bool) (n : ℕ)
        → add_to n (if known then some 0 else none) ≡ (if known then some n else none)
    from_zero true n = ground arith
    from_zero false n = refl
