-- ===== src/Observability/Latencies.antt =====
-- What a history of calls makes of the latency fields of the registry.
use incident_intelligence_pl.Prelude.{
  All, Bool-cases, subst, ℕ, zero, suc, sym, ◌+◌, ◌≡◌, refl, ◌∙◌, String, false, List, [], ◌∷◌,
  arith, if◌then◌else◌, ◌==◌, inl, inr,
}
use incident_intelligence_pl.Prelude.Ordered.{In}
use incident_intelligence_pl.Schemas.{ℤ, pos, negsuc}
use incident_intelligence_pl.Observability.{
  Float, Floats, zero_ms, max_of, MetricsRegistry, increment,
}
use incident_intelligence_pl.Observability.Calls.{
  IsArithmetic, IsNumber, Call, increments, observes, run, latencies, added, count, observed_by,
  run-observes_taken, run-observes_refused, latencies-taken, latencies-refused,
}

-- The calls leave the three fields of the latencies as those of the call's latencies added.
increment-latency :
    (operation : String) (amount : ℤ) (r : MetricsRegistry)
    → let r' = (increment operation amount r).1 in
      (r'.request_count ≡ r.request_count)
      × (r'.request_total_ms ≡ r.request_total_ms)
      × (r'.request_max_ms ≡ r.request_max_ms)
unfolding increment
increment-latency operation (negsuc n) r = (refl, refl, refl)
increment-latency operation (pos amount) r = ground arith

pub run-latency :
    (floats : Floats) (calls : List Call) (r : MetricsRegistry)
    → let r' = run floats calls r in
      let observed = latencies floats calls in
      (r'.request_count ≡ r.request_count + count observed)
      × (r'.request_total_ms ≡ added floats r.request_total_ms observed)
unfolding run latencies
run-latency floats [] r = (omega arith, refl)
run-latency floats (increments operation amount ∷ calls) r =
    let (c, t, m) = increment-latency operation amount r in
    let (c', t') = run-latency floats calls (increment operation amount r).1 in
    (c' ∙ rw c refl, t' ∙ rw t refl)
run-latency floats (observes n ∷ calls) r = elim (Bool-cases (floats.less n zero_ms)) [
  | inl negative ↦
      rw (run-observes_refused floats n calls r negative, latencies-refused floats n calls negative)
        (run-latency floats calls r)
  | inr taken ↦
      let (c, t) = run-latency floats calls (observed_by floats n r) in
      rw (run-observes_taken floats n calls r taken, latencies-taken floats n calls taken)
        (omega (arith, c), t)
]

module _ (floats : Floats) (laws : IsArithmetic floats) where
  pub irrefl : (a : Float) → floats.less a a ≡ false
  irrefl a = elim (Bool-cases (floats.less a a)) [ inl h ↦ laws.asym a a h | inr h ↦ h ]

  -- The greatest of a first number and the members of a list.
  pub record IsGreatest (m first : Float) (ns : List Float) : Type 0 where
    pub one_of : In m (first ∷ ns)
    pub not_less : (x : Float) → In x (first ∷ ns) → floats.less m x ≡ false

  IsGreatest-cons :
      (m first n : Float) (ns : List Float)
      → IsNumber floats first
      → IsNumber floats n
      → IsGreatest m (max_of floats first n) ns
      → IsGreatest m first (n ∷ ns)
  IsGreatest-cons m first n ns p q g = elim (Bool-cases (floats.less first n)) [
    | inl up ↦
        let is : max_of floats first n ≡ n = rw up refl in
        let at_n = g.not_less n (inl (sym is)) in
        record {
          one_of = elim g.one_of [ inl e ↦ inr (inl (e ∙ is)) | inr i ↦ inr (inr i) ];
          not_less = λ x i. elim i [
            | inl e ↦ rw e (q m first at_n (laws.asym first n up))
            | inr j ↦ elim j [ inl e ↦ rw e at_n | inr k ↦ g.not_less x (inr k) ]
          ];
        }
    | inr down ↦
        let is : max_of floats first n ≡ first = rw down refl in
        let at_first = g.not_less first (inl (sym is)) in
        record {
          one_of = elim g.one_of [ inl e ↦ inl (e ∙ is) | inr i ↦ inr (inr i) ];
          not_less = λ x i. elim i [
            | inl e ↦ rw e at_first
            | inr j ↦ elim j [ inl e ↦ rw e (p m n at_first down) | inr k ↦ g.not_less x (inr k) ]
          ];
        }
  ]

  max_of-IsNumber :
      (a b : Float) → IsNumber floats a → IsNumber floats b → IsNumber floats (max_of floats a b)
  max_of-IsNumber a b p q = elim (Bool-cases (floats.less a b)) [ inl h ↦ rw h q | inr h ↦ rw h p ]

  pub run-IsGreatest :
      (calls : List Call) (r : MetricsRegistry)
      → IsNumber floats r.request_max_ms
      → All (IsNumber floats) (latencies floats calls)
      → IsGreatest (run floats calls r).request_max_ms r.request_max_ms (latencies floats calls)
  unfolding run latencies
  run-IsGreatest [] r p ps = record {
    one_of = inl refl;
    not_less = λ x i. elim i [ inl e ↦ rw e (irrefl r.request_max_ms) | inr j ↦ absurd j ];
  }
  run-IsGreatest (increments operation amount ∷ calls) r p ps =
      let (c, t, m) = increment-latency operation amount r in
      subst
        (λ first.
          IsGreatest (run floats calls (increment operation amount r).1).request_max_ms first
            (latencies floats calls))
        m (run-IsGreatest calls (increment operation amount r).1 (rw m p) ps)
  run-IsGreatest (observes n ∷ calls) r p ps = elim (Bool-cases (floats.less n zero_ms)) [
    | inl negative ↦
        rw
          (
            run-observes_refused floats n calls r negative,
            latencies-refused floats n calls negative,
          )
          (run-IsGreatest calls r p (rw (latencies-refused floats n calls negative) at ps))
    | inr taken ↦
        let (q, qs) : IsNumber floats n × All (IsNumber floats) (latencies floats calls) =
          rw (latencies-taken floats n calls taken) at ps in
        rw (run-observes_taken floats n calls r taken, latencies-taken floats n calls taken)
          (IsGreatest-cons _ r.request_max_ms n (latencies floats calls) p q (
            run-IsGreatest calls (observed_by floats n r) (max_of-IsNumber r.request_max_ms n p q)
              qs))
  ]

  pub latencies-positive :
      (calls : List Call) → All (λ n. floats.less n zero_ms ≡ false) (latencies floats calls)
  unfolding latencies
  latencies-positive [] = tt
  latencies-positive (increments operation amount ∷ calls) = latencies-positive calls
  latencies-positive (observes n ∷ calls) = elim (Bool-cases (floats.less n zero_ms)) [
    | inl negative ↦ rw negative (latencies-positive calls)
    | inr taken ↦ rw taken (taken, latencies-positive calls)
  ]

  pub added-positive :
      (total : Float) (ns : List Float)
      → floats.less total zero_ms ≡ false
      → All (λ n. floats.less n zero_ms ≡ false) ns
      → floats.less (added floats total ns) zero_ms ≡ false
  added-positive total [] h hs = h
  added-positive total (n ∷ ns) h hs =
      added-positive (floats.add total n) ns (laws.add_positive total n h hs.0) hs.1

  pub mean-positive :
      (c : ℕ) (total : Float)
      → floats.less total zero_ms ≡ false
      → floats.less (if c == 0 then zero_ms else floats.divide total c) zero_ms ≡ false
  mean-positive zero total h = irrefl zero_ms
  mean-positive (suc c) total h =
      let some_calls : (suc c == 0) ≡ false = ground arith in
      rw some_calls (laws.divide_positive total c h)
