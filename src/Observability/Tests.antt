-- ===== src/Observability/Tests.antt =====
-- A history of the metrics registry with calls that it refuses. The bits stand for whole numbers, of
-- which those from a million on are negative.
use native.Mathlib.Nat.{div-le_self}
use incident_intelligence_pl.Prelude.{
  ℕ, suc, ◌+◌, ◌/◌, ◌≡◌, ◌==◌, false, some, none, List, [], ◌∷◌, any, min, leb, ltb, str_eq,
  if◌then◌else◌, arith, ◌≤◌,
}
use incident_intelligence_pl.Prelude.Dicts
use incident_intelligence_pl.Prelude.Ordered.{In}
use incident_intelligence_pl.Schemas.{pos, negsuc}
use incident_intelligence_pl.Observability.{
  Float, Floats, zero_ms, operation_names, new_registry, snapshot,
}
use incident_intelligence_pl.Observability.Calls.{
  IsArithmetic, IsNumber, Call, increments, observes, run, total_of, latencies, added, count,
}
use incident_intelligence_pl.Observability.Totals.{run-snapshot}

abbrev place : Float → ℕ
place a = if leb 1000000 a.bits then 0 else a.bits + 1

abbrev whole : Floats
whole = record {
  add = λ a b. record { bits = min (a.bits + b.bits) 999999 };
  divide = λ a n. record { bits = if leb 1000000 a.bits then a.bits else a.bits / n };
  less = λ a b. ltb (place a) (place b);
}

whole-IsArithmetic : IsArithmetic whole
whole-IsArithmetic = record {
  asym = λ a b h. ground arith;
  zero_between = λ a c h k. ground arith;
  add_positive = λ a b h k. ground arith;
  divide_positive =
      λ a n h. let small : a.bits / suc n ≤ a.bits = div-le_self a.bits (suc n) in ground arith;
}

whole-IsNumber : (b : Float) → IsNumber whole b
whole-IsNumber b a c h k = ground arith

abbrev ms : ℕ → Float
ms n = record { bits = n }

abbrev history : List Call
history =
    increments "failed" (pos 2)
    ∷ increments "lost" (pos 1)
    ∷ observes (ms 15)
    ∷ increments "failed" (negsuc 0)
    ∷ observes (ms 1000003)
    ∷ observes (ms 5)
    ∷ increments "failed" (pos 1)
    ∷ []

run-snapshot_example :
    let shown = snapshot whole (run whole history new_registry) in
    let latency = shown.request_latency in
    let observed = latencies whole history in
    (Dicts.get "failed" shown.counters ≡ (
      if any (λ s. str_eq s "failed") operation_names
      then some (total_of "failed" history)
      else none))
    × (latency.count ≡ count observed)
    × (latency.mean_ms ≡ (
        if count observed == 0
        then zero_ms
        else whole.divide (added whole zero_ms observed) (count observed)))
    × In latency.max_ms (zero_ms ∷ observed)
    × ((x : Float) → In x (zero_ms ∷ observed) → whole.less latency.max_ms x ≡ false)
    × (whole.less latency.mean_ms zero_ms ≡ false)
unfolding latencies
run-snapshot_example =
    run-snapshot whole whole-IsArithmetic "failed" history
      (whole-IsNumber (ms 15), (whole-IsNumber (ms 5), tt))
