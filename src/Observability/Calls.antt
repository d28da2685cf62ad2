-- ===== src/Observability/Calls.antt =====
-- Histories of calls of the metrics registry, and what its latencies are expected to come to.
use incident_intelligence_pl.Prelude.{
  ℕ, suc, ◌+◌, ◌≡◌, refl, String, true, false, List, [], ◌∷◌, str_eq, if◌then◌else◌,
}
use incident_intelligence_pl.Schemas.{ℤ, pos, negsuc}
use incident_intelligence_pl.Observability.{
  Float, Floats, zero_ms, max_of, MetricsRegistry, increment, observe_request,
}

-- What `<`, adding and dividing do on binary64 numbers. `<` goes one way only, and the sum of numbers
-- that are not negative, and the quotient of one by a positive count, are not negative.
pub record IsArithmetic (floats : Floats) : Type 0 where
  pub asym : (a b : Float) → floats.less a b ≡ true → floats.less b a ≡ false
  pub zero_between :
      (a c : Float)
      → floats.less a zero_ms ≡ false
      → floats.less zero_ms c ≡ false
      → floats.less a c ≡ false
  pub add_positive :
      (a b : Float)
      → floats.less a zero_ms ≡ false
      → floats.less b zero_ms ≡ false
      → floats.less (floats.add a b) zero_ms ≡ false
  pub divide_positive :
      (a : Float) (n : ℕ)
      → floats.less a zero_ms ≡ false
      → floats.less (floats.divide a (suc n)) zero_ms ≡ false

-- What every float but NaN has: it stands between what is not less than it and what it is not less
-- than.
abbrev pub IsNumber : Floats → Float → Type 0
IsNumber floats b =
    (a c : Float) → floats.less a b ≡ false → floats.less b c ≡ false → floats.less a c ≡ false

pub data Call : Type 0 where
  increments : String → ℤ → Call
  observes : Float → Call

unfoldable pub run : Floats → List Call → MetricsRegistry → MetricsRegistry
run floats [] r = r
run floats (increments operation amount ∷ calls) r =
    run floats calls (increment operation amount r).1
run floats (observes latency_ms ∷ calls) r =
    run floats calls (observe_request floats latency_ms r).1

-- The sum of the positive amounts under a name, and the latencies that are not negative, with their
-- number and what they add up to.
abbrev pub positive : ℤ → ℕ
positive (pos n) = n
positive (negsuc n) = 0

unfoldable pub total_of : String → List Call → ℕ
total_of name [] = 0
total_of name (increments operation amount ∷ calls) =
    (if str_eq operation name then positive amount else 0) + total_of name calls
total_of name (observes latency_ms ∷ calls) = total_of name calls

unfoldable pub latencies : Floats → List Call → List Float
latencies floats [] = []
latencies floats (increments operation amount ∷ calls) = latencies floats calls
latencies floats (observes n ∷ calls) =
    if floats.less n zero_ms then latencies floats calls else n ∷ latencies floats calls

-- From a first number on, one after the other.
abbrev pub added : Floats → Float → List Float → Float
added floats total [] = total
added floats total (n ∷ ns) = added floats (floats.add total n) ns

abbrev pub count : List Float → ℕ
count [] = 0
count (n ∷ ns) = 1 + count ns

-- The registry after a latency that is not refused.
abbrev pub observed_by : Floats → Float → MetricsRegistry → MetricsRegistry
observed_by floats n r = record r {
  request_count = r.request_count + 1;
  request_total_ms = floats.add r.request_total_ms n;
  request_max_ms = max_of floats r.request_max_ms n;
}

pub run-observes_taken :
    (floats : Floats) (n : Float) (calls : List Call) (r : MetricsRegistry)
    → floats.less n zero_ms ≡ false
    → run floats (observes n ∷ calls) r ≡ run floats calls (observed_by floats n r)
unfolding run observe_request
run-observes_taken floats n calls r h = rw h refl

pub run-observes_refused :
    (floats : Floats) (n : Float) (calls : List Call) (r : MetricsRegistry)
    → floats.less n zero_ms ≡ true
    → run floats (observes n ∷ calls) r ≡ run floats calls r
unfolding run observe_request
run-observes_refused floats n calls r h = rw h refl

pub latencies-taken :
    (floats : Floats) (n : Float) (calls : List Call)
    → floats.less n zero_ms ≡ false
    → latencies floats (observes n ∷ calls) ≡ n ∷ latencies floats calls
unfolding latencies
latencies-taken floats n calls h = rw h refl

pub latencies-refused :
    (floats : Floats) (n : Float) (calls : List Call)
    → floats.less n zero_ms ≡ true
    → latencies floats (observes n ∷ calls) ≡ latencies floats calls
unfolding latencies
latencies-refused floats n calls h = rw h refl
