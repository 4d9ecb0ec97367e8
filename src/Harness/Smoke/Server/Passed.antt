-- ===== src/Harness/Smoke/Server/Passed.antt =====
-- That the smoke test of a server ends, and what has been seen when it passes.
use prometheus_exporter_fram.Prelude.{
  ℕ, zero, suc, ◌≤◌, Bool, true, false, not, ◌&&◌, some, List, [], ◌∷◌, ok, list_eq, nat_eq, all,
  any, length, ◌≡◌, refl, arith,
}
use prometheus_exporter_fram.Assoc.{has}
use prometheus_exporter_fram.Clock.{Time, Duration, add, before}
use prometheus_exporter_fram.Text.{Text, contains}
use prometheus_exporter_fram.Harness.Smoke.{
  SmokeConfig, metric_wants, contains_all, accepts_metrics,
}
use prometheus_exporter_fram.Harness.Smoke.Server.{
  Round, Attempt, passed, wait_for_health, wait_for_metrics, run_server_smoke_attempt, smoke_loop,
  run_server_smoke, server_start_attempts,
}

-- In some round the clock has reached the deadline.
pub runs_out : Time → List Round → Bool
runs_out deadline rounds = any (λ r. not (before r.now deadline)) rounds

-- Both loops of an attempt are given until their deadlines.
pub timed : Duration → Attempt → Bool
timed timeout a =
    runs_out (add a.health_start timeout) a.health_rounds
    && runs_out (add a.metrics_start timeout) a.metrics_rounds

wait_for_health_ends :
    (deadline : Time) (rounds : List Round)
    → runs_out deadline rounds ≡ true
    → has (wait_for_health deadline rounds) ≡ true
unfolding wait_for_health runs_out
wait_for_health_ends deadline [] h = ground arith
wait_for_health_ends deadline (r ∷ rounds) h = ground (arith, wait_for_health_ends deadline rounds)

module _ (wants : List Text) where
  wait_for_metrics_ends :
      (deadline : Time) (rounds : List Round)
      → runs_out deadline rounds ≡ true
      → has (wait_for_metrics wants deadline rounds) ≡ true
  unfolding wait_for_metrics runs_out
  wait_for_metrics_ends deadline [] h = ground arith
  wait_for_metrics_ends deadline (r ∷ rounds) h =
      ground (arith, wait_for_metrics_ends deadline rounds)

  wait_for_metrics-wants :
      (deadline : Time) (rounds : List Round) (metrics : Text)
      → wait_for_metrics wants deadline rounds ≡ some (ok metrics)
      → contains_all metrics wants ≡ true
  unfolding wait_for_metrics
  wait_for_metrics-wants deadline [] metrics h = ground arith
  wait_for_metrics-wants deadline (r ∷ rounds) metrics h =
      ground (arith, wait_for_metrics-wants deadline rounds metrics)

  module _ (config : SmokeConfig) where
    attempt_ends :
        (a : Attempt)
        → timed config.startup_timeout a ≡ true
        → has (run_server_smoke_attempt config wants a) ≡ true
    unfolding run_server_smoke_attempt timed
    attempt_ends a h = ground (
      arith,
      wait_for_health_ends (add a.health_start config.startup_timeout) a.health_rounds,
      wait_for_metrics_ends (add a.metrics_start config.startup_timeout) a.metrics_rounds,
    )

    abbrev Accepted : Text → Type 0
    Accepted metrics =
        (contains_all metrics wants
          && not (any (λ reject. contains metrics reject) config.reject_metrics))
        ≡ true

    attempt-Accepted :
        (a : Attempt) (metrics : Text)
        → run_server_smoke_attempt config wants a ≡ some (ok (passed metrics))
        → Accepted metrics
    unfolding run_server_smoke_attempt
    attempt-Accepted a metrics h = ground (
      arith,
      wait_for_metrics-wants (add a.metrics_start config.startup_timeout) a.metrics_rounds metrics,
    )

    loop_ends :
        (n : ℕ) (attempts : List Attempt)
        → n ≤ length attempts
        → all (timed config.startup_timeout) attempts ≡ true
        → has (smoke_loop config wants n attempts) ≡ true
    unfolding smoke_loop
    loop_ends zero attempts m h = refl
    loop_ends (suc n) [] m h = ground arith
    loop_ends (suc n) (a ∷ attempts) m h = ground (arith, attempt_ends a, loop_ends n attempts)

    loop-Accepted :
        (n : ℕ) (attempts : List Attempt) (metrics : Text)
        → smoke_loop config wants n attempts ≡ some (ok metrics)
        → Accepted metrics
    unfolding smoke_loop
    loop-Accepted zero attempts metrics h = ground arith
    loop-Accepted (suc n) [] metrics h = ground arith
    loop-Accepted (suc n) (a ∷ attempts) metrics h =
        ground (arith, attempt-Accepted a metrics, loop-Accepted n attempts metrics)

all-rejected :
    (metrics : Text) (rejects : List Text)
    → any (λ reject. contains metrics reject) rejects ≡ false
    → all (λ reject. not (contains metrics reject)) rejects ≡ true
all-rejected metrics [] h = refl
all-rejected metrics (r ∷ rejects) h = ground (arith, all-rejected metrics rejects)

-- With as many attempts given as the test makes, each with its loops until their deadlines, the test
-- ends; and whenever it passes, the metrics have all that is wanted, the build information among it,
-- and nothing that is rejected.
run_server_smoke_ends :
    (config : SmokeConfig) (attempts : List Attempt)
    → server_start_attempts ≤ length attempts
    → all (timed config.startup_timeout) attempts ≡ true
    → (has (run_server_smoke config attempts) ≡ true)
      × ((metrics : Text)
          → run_server_smoke config attempts ≡ some (ok metrics)
          → accepts_metrics config metrics ≡ true)
unfolding run_server_smoke accepts_metrics
run_server_smoke_ends config attempts m h = (
  loop_ends (metric_wants config) config server_start_attempts attempts m h,
  λ metrics passes. ground (
    arith,
    loop-Accepted (metric_wants config) config server_start_attempts attempts metrics passes,
    all-rejected metrics config.reject_metrics,
  ),
)
