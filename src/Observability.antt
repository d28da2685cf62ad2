-- ===== src/Observability.antt =====
-- observability.py: the counters and the request latencies. A latency is a Python float, kept as the
-- bits of the binary64 number, and the arithmetic of floats is an argument: adding, dividing by a
-- count, and `<`. The lock makes each call one step. Pydantic's test of a snapshot, that neither
-- float is negative, is left out: of what can be observed only NaN would fail it, which the
-- difference of two readings of a clock is not.
pub mod Calls
pub mod Latencies
pub mod Totals
mod Tests
use incident_intelligence_pl.Prelude.{
  ℕ, ◌+◌, String, Bool, Option, none, some, List, [], ◌∷◌, if◌then◌else◌, ◌==◌,
}
use incident_intelligence_pl.Prelude.Dicts
use incident_intelligence_pl.Prelude.Dicts.{Dict}
use incident_intelligence_pl.Failure.{value_error, Result, ok, err}
use incident_intelligence_pl.Schemas.{ℤ, pos, negsuc}

abbrev pub operation_names : List String
operation_names =
    "accepted" ∷ "duplicate" ∷ "conflict" ∷ "rejected" ∷ "retried" ∷ "failed" ∷ "approved" ∷ []

pub record Float : Type 0 where
  pub bits : ℕ

pub record Floats : Type 0 where
  pub add : Float → Float → Float
  pub divide : Float → ℕ → Float
  pub less : Float → Float → Bool

-- `0.0`
abbrev pub zero_ms : Float
zero_ms = record { bits = 0 }

-- `max(a, b)`
abbrev pub max_of : Floats → Float → Float → Float
max_of floats a b = if floats.less a b then b else a

pub record LatencySummary : Type 0 where
  pub count : ℕ
  pub mean_ms : Float
  pub max_ms : Float

pub record MetricsSnapshot : Type 0 where
  pub counters : Dict ℕ
  pub request_latency : LatencySummary

pub record MetricsRegistry : Type 0 where
  pub counters : Dict ℕ
  pub request_count : ℕ
  pub request_total_ms : Float
  pub request_max_ms : Float

-- `{name: 0 for name in OPERATION_NAMES}`
unfoldable pub zero_counters : List String → Dict ℕ
zero_counters [] = []
zero_counters (name ∷ names) = (name, 0) ∷ zero_counters names

unfoldable pub new_registry : MetricsRegistry
unfolding zero_counters
new_registry = record {
  counters = zero_counters operation_names;
  request_count = 0;
  request_total_ms = zero_ms;
  request_max_ms = zero_ms;
}

abbrev pub add_counter :
    String → Option ℕ → ℕ → MetricsRegistry → Result (Unit {0}) × MetricsRegistry
add_counter operation none amount r = (err value_error, r)
add_counter operation (some value) amount r =
    if amount == 0
    then (err value_error, r)
    else (ok tt, record r { counters = Dicts.put operation (value + amount) r.counters })

unfoldable pub increment : String → ℤ → MetricsRegistry → Result (Unit {0}) × MetricsRegistry
increment operation (pos amount) r = add_counter operation (Dicts.get operation r.counters) amount r
increment operation (negsuc n) r = (err value_error, r)

unfoldable pub observe_request :
    Floats → Float → MetricsRegistry → Result (Unit {0}) × MetricsRegistry
observe_request floats latency_ms r =
    if floats.less latency_ms zero_ms then (err value_error, r) else (
      ok tt,
      record r {
        request_count = r.request_count + 1;
        request_total_ms = floats.add r.request_total_ms latency_ms;
        request_max_ms = max_of floats r.request_max_ms latency_ms;
      },
    )

unfoldable pub snapshot : Floats → MetricsRegistry → MetricsSnapshot
snapshot floats r = record {
  counters = r.counters;
  request_latency = record {
    count = r.request_count;
    mean_ms =
        if r.request_count == 0 then zero_ms else floats.divide r.request_total_ms r.request_count;
    max_ms = r.request_max_ms;
  };
}
