-- ===== src/Worker/Polling.antt =====
-- The loop of `run_forever` in worker.py: how long the worker waits after each round, in
-- milliseconds. A round returns the number of jobs it took, or raises.
use native.Mathlib.Nat.{pow-suc}
use incident_intelligence_pl.Prelude.{
  ℕ, zero, suc, ◌+◌, ◌-◌, ◌*◌, ◌^◌, min, max, ◌≤◌, ◌≡◌, refl, ◌∙◌, true, ap, not, ◌&&◌, List, [],
  ◌∷◌, arith, All, length, leb, ◌==◌, if◌then◌else◌, map, ◌++◌,
}
use incident_intelligence_pl.Failure.{Failure, value_error, Result, ok, err}

-- One pass of the loop: the consecutive failures after it, and the wait.
unfoldable pub poll_step : ℕ → Result ℕ → ℕ → ℕ × ℕ
poll_step poll_interval (ok processed) failures = (0, if processed == 0 then poll_interval else 0)
poll_step poll_interval (err e) failures =
    let failures' = min 7 (failures + 1) in
    (failures', min 60000 (max 1000 poll_interval * 2 ^ (failures' - 1)))

-- The waits of a sequence of rounds.
unfoldable pub poll_loop : ℕ → List (Result ℕ) → ℕ → List (Result ℕ × ℕ)
poll_loop poll_interval [] failures = []
poll_loop poll_interval (r ∷ rs) failures =
    let (failures', wait) = poll_step poll_interval r failures in
    (r, wait) ∷ poll_loop poll_interval rs failures'

-- `run_forever` over the rounds until `stop` is set.
unfoldable pub run_forever : ℕ → List (Result ℕ) → Result (List (Result ℕ × ℕ))
run_forever poll_interval rounds =
    if not (leb 100 poll_interval && leb poll_interval 60000)
    then err value_error
    else ok (poll_loop poll_interval rounds 0)

-- The pace of one round: a failed one is followed by a wait of at least a second and the interval,
-- an idle one by the interval, a busy one by none; and no wait is longer than a minute.
abbrev pub IsPaced : ℕ → Result ℕ × ℕ → Type 0
IsPaced poll_interval (err e, wait) = (max 1000 poll_interval ≤ wait) × (wait ≤ 60000)
IsPaced poll_interval (ok zero, wait) = (wait ≡ poll_interval) × (wait ≤ 60000)
IsPaced poll_interval (ok (suc n), wait) = wait ≡ 0

pow-pos : (k : ℕ) → 1 ≤ 2 ^ k
pow-pos zero = omega arith
pow-pos (suc k) = omega (arith, pow-suc 2 k, pow-pos k)

mul-ge : (b c : ℕ) → 1 ≤ c → b ≤ b * c
mul-ge b zero h = absurd (omega (arith, h))
mul-ge b (suc c) h = omega arith

poll_loop-IsPaced :
    (poll_interval : ℕ) (rounds : List (Result ℕ)) (failures : ℕ)
    → poll_interval ≤ 60000
    → All (IsPaced poll_interval) (poll_loop poll_interval rounds failures)
unfolding poll_loop poll_step
poll_loop-IsPaced p [] n h = tt
poll_loop-IsPaced p (ok zero ∷ rs) n h =
    ((ground arith, ground (arith, h)), poll_loop-IsPaced p rs 0 h)
poll_loop-IsPaced p (ok (suc k) ∷ rs) n h = (ground arith, poll_loop-IsPaced p rs 0 h)
poll_loop-IsPaced p (err e ∷ rs) n h =
    let grown = mul-ge (max 1000 p) (2 ^ (min 7 (n + 1) - 1)) (pow-pos (min 7 (n + 1) - 1)) in
    ((omega (arith, grown, h), omega arith), poll_loop-IsPaced p rs (min 7 (n + 1)) h)

-- The count of consecutive failures stops at 7.
failures_after : ℕ → List Failure → ℕ → ℕ
failures_after p [] failures = failures
failures_after p (e ∷ es) failures = failures_after p es (poll_step p (err e) failures).0

failures_after-min :
    (p : ℕ) (es : List Failure) (n : ℕ) → n ≤ 7 → failures_after p es n ≡ min 7 (n + length es)
unfolding failures_after poll_step
failures_after-min p [] n h = omega (arith, h)
failures_after-min p (e ∷ es) n h =
    omega (arith, failures_after-min p es (min 7 (n + 1)) (omega arith), h)

poll_loop-append :
    (p : ℕ) (es : List Failure) (e : Failure) (n : ℕ)
    → poll_loop p (map err es ++ (err e ∷ [])) n
      ≡ poll_loop p (map err es) n
        ++ ((err e, (poll_step p (err e) (failures_after p es n)).1) ∷ [])
unfolding poll_loop failures_after
poll_loop-append p [] e n = refl
poll_loop-append p (f ∷ es) e n =
    ap (λ rest. (err f, (poll_step p (err f) n).1) ∷ rest)
      (poll_loop-append p es e (poll_step p (err f) n).0)

-- With a poll interval of 0.1 to 60 seconds the loop runs, and every round is paced: a failed round is
-- followed by a wait of at least a second and the interval, an idle one by the interval, a busy one by
-- none, and no wait is longer than a minute.
pub run_forever-IsPaced :
    (poll_interval : ℕ) (rounds : List (Result ℕ))
    → 100 ≤ poll_interval
    → poll_interval ≤ 60000
    → let waits = poll_loop poll_interval rounds 0 in
      (run_forever poll_interval rounds ≡ ok waits) × All (IsPaced poll_interval) waits
unfolding run_forever
run_forever-IsPaced p rounds lo hi =
    let good : leb 100 p && leb p 60000 ≡ true = ground (arith, lo, hi) in
    (rw good refl, poll_loop-IsPaced p rounds 0 hi)

-- Rounds that fail one after the other from the start double the wait each time: after `k` of them
-- another one is followed by a wait of `max(1, interval) * 2 ** min(6, k)` seconds, a minute at most.
pub poll_loop-backoff :
    (poll_interval : ℕ) (failed : List Failure) (e : Failure)
    → poll_loop poll_interval (map err failed ++ (err e ∷ [])) 0
      ≡ poll_loop poll_interval (map err failed) 0
        ++ ((err e, min 60000 (max 1000 poll_interval * 2 ^ min 6 (length failed))) ∷ [])
unfolding poll_step
poll_loop-backoff p failed e =
    let count = failures_after-min p failed 0 (omega arith) in
    let k : min 7 (min 7 (0 + length failed) + 1) - 1 ≡ min 6 (length failed) = omega arith in
    poll_loop-append p failed e 0 ∙ rw (count, k) refl
