-- ===== src/Harness/Smoke/Server.antt =====
-- exporter/exportertest/smoketest/smoketest.go: the smoke test of a running server. What the process
-- and the network do is given: for each attempt whether the program starts and stays, and for each
-- round of a loop the reading of the clock, whether the process has ended, and the response. A test
-- that ends with a message has an error; a loop for which nothing more is given has `none`.
pub mod Passed
use prometheus_exporter_fram.Prelude.{
  ℕ, zero, suc, Bool, true, false, not, Option, none, some, List, [], ◌∷◌, ◌++◌, Result, ok, err,
  ◌==◌, list_eq, nat_eq, nat_beq, all, any, if◌then◌else◌,
}
use prometheus_exporter_fram.Clock.{Time, add, before}
use prometheus_exporter_fram.Text.{Text, codes, contains}
use prometheus_exporter_fram.Harness.Smoke.{SmokeConfig, metric_wants, contains_all}

-- `http.Response`; the body is `none` if reading it fails
pub record Response : Type 0 where
  pub status : ℕ
  pub body : Option Text

-- a round of a loop; the response is `none` if `Get` returns an error
pub record Round : Type 0 where
  pub now : Time
  pub exited : Bool
  pub response : Option Response

pub data Failure : Type 0 where
  not_started : Failure
  exited_before_health : Failure
  exited_before_metrics : Failure
  health_timed_out : Failure
  metrics_timed_out : Failure
  get_failed : Failure
  read_failed : Failure
  wrong_status : Failure
  wrong_health : Failure
  rejected_metric : Failure
  exited_during_startup : Failure

-- `httpGet`
unfoldable pub http_get : ℕ → Option Response → Result Failure Text
http_get want_status none = err get_failed
http_get want_status (some response) = elim response.body [
  | none ↦ err read_failed
  | some body ↦ if nat_beq response.status want_status then ok body else err wrong_status
]

abbrev pub is_healthy : Option Response → Bool
is_healthy none = false
is_healthy (some response) = nat_beq response.status 200

-- the loop of `waitForHealth`
unfoldable pub wait_for_health : Time → List Round → Option (Result Failure Unit)
wait_for_health deadline [] = none
wait_for_health deadline (round ∷ rounds) =
    let rest = wait_for_health deadline rounds in
    if not (before round.now deadline)
    then some (err health_timed_out)
    else if round.exited
    then some (err exited_before_health)
    else if is_healthy round.response
    then some (ok tt)
    else rest

-- the loop of `waitForMetrics`
unfoldable pub wait_for_metrics : List Text → Time → List Round → Option (Result Failure Text)
unfolding http_get
wait_for_metrics wants deadline [] = none
wait_for_metrics wants deadline (round ∷ rounds) =
    let rest = wait_for_metrics wants deadline rounds in
    if not (before round.now deadline)
    then some (err metrics_timed_out)
    else if round.exited
    then some (err exited_before_metrics)
    else elim (http_get 200 round.response) [
      | err e ↦ some (err e)
      | ok metrics ↦ if contains_all metrics wants then some (ok metrics) else rest
    ]

-- what happens in an attempt: whether the program starts, and whether it ends within 50 ms
pub record Attempt : Type 0 where
  pub starts : Bool
  pub ends_early : Bool
  pub health_start : Time
  pub health_rounds : List Round
  pub health : Option Response
  pub metrics_start : Time
  pub metrics_rounds : List Round

-- What an attempt ends with: the test goes on, or the server is to be started again.
pub data Ended : Type 0 where
  passed : Text → Ended
  retry : Ended

-- the arguments of the program, without those of `ServerArgs`
unfoldable pub server_flags : SmokeConfig → Text → List Text
server_flags config address =
    codes "--log.level=error"
    ∷ (codes "--web.listen-address=" ++ address)
    ∷ (codes "--web.telemetry-path=" ++ config.telemetry_path)
    ∷ []

-- `runServerSmokeAttempt` from `waitForMetrics` on
abbrev pub after_metrics :
    SmokeConfig → Option (Result Failure Text) → Option (Result Failure Ended)
after_metrics config none = none
after_metrics config (some (err e)) = some (err e)
after_metrics config (some (ok metrics)) = some (
    if any (λ reject. contains metrics reject) config.reject_metrics
    then err rejected_metric
    else ok (passed metrics))

-- and from the first response of the health path
abbrev pub after_health :
    Result Failure Text → Option (Result Failure Ended) → Option (Result Failure Ended)
after_health (err e) rest = some (err e)
after_health (ok health) rest =
    if health == (codes "ok" ++ 10 ∷ []) then rest else some (err wrong_health)

abbrev pub after_wait :
    Option (Result Failure Unit) → Option (Result Failure Ended) → Option (Result Failure Ended)
after_wait none rest = none
after_wait (some (err e)) rest = some (err e)
after_wait (some (ok u)) rest = rest

-- `runServerSmokeAttempt`
unfoldable pub run_server_smoke_attempt :
    SmokeConfig → List Text → Attempt → Option (Result Failure Ended)
unfolding wait_for_health wait_for_metrics
run_server_smoke_attempt config wants a =
    let metrics =
      wait_for_metrics wants (add a.metrics_start config.startup_timeout) a.metrics_rounds in
    if not a.starts
    then some (err not_started)
    else if a.ends_early
    then some (ok retry)
    else after_wait (wait_for_health (add a.health_start config.startup_timeout) a.health_rounds)
        (after_health (http_get 200 a.health) (after_metrics config metrics))

abbrev pub server_start_attempts : ℕ
server_start_attempts = 5

-- the loop of `runServerSmoke`, with some attempts left; the test passes with the metrics
unfoldable pub smoke_loop :
    SmokeConfig → List Text → ℕ → List Attempt → Option (Result Failure Text)
unfolding run_server_smoke_attempt
smoke_loop config wants zero attempts = some (err exited_during_startup)
smoke_loop config wants (suc n) [] = none
smoke_loop config wants (suc n) (a ∷ attempts) =
    let rest = smoke_loop config wants n attempts in
    elim (run_server_smoke_attempt config wants a) [
      | none ↦ none
      | some result ↦ elim result [
        | err e ↦ some (err e)
        | ok ended ↦ elim ended [ passed metrics ↦ some (ok metrics) | retry ↦ rest ]
      ]
    ]

-- `runServerSmoke`, as `RunBinary` calls it
unfoldable pub run_server_smoke : SmokeConfig → List Attempt → Option (Result Failure Text)
unfolding smoke_loop
run_server_smoke config attempts =
    smoke_loop config (metric_wants config) server_start_attempts attempts
