-- ===== src/Harness/Smoke.antt =====
-- exporter/exportertest/smoketest/smoketest.go: the configuration of a smoke test, and what it wants
-- of the metrics. An error is the message that ends the test.
pub mod Server
use prometheus_exporter_fram.Prelude.{
  Bool, not, ◌&&◌, Option, none, some, List, [], ◌∷◌, ◌++◌, Result, ok, err, ◌==◌, list_eq, nat_eq,
  all, pos, negsuc, nat_beq, if◌then◌else◌,
}
use prometheus_exporter_fram.Clock.{Duration}
use prometheus_exporter_fram.Text.{
  Text, codes, is_empty, trim_space, has_prefix, contains_any, contains,
}
use prometheus_exporter_fram.App.Names.{non_empty}

-- the fields that the defaults and the checks are about
pub record SmokeConfig : Type 0 where
  pub project_name : Text
  pub build_info_metric : Text
  pub server_test_name : Text
  pub want_metrics : List Text
  pub reject_metrics : List Text
  pub run_env : Text
  pub command_dir : Text
  pub telemetry_path : Text
  pub health_path : Text
  pub startup_timeout : Duration
  pub http_timeout : Duration

pub data SmokePathError : Type 0 where
  surrounding_whitespace relative root whitespace query_or_fragment double_slash : SmokePathError

pub data SmokeError : Type 0 where
  project_name_required : SmokeError
  invalid_path : Text → Text → SmokePathError → SmokeError

-- `validateSmokePath`
unfoldable pub validate_smoke_path : Text → Option SmokePathError
validate_smoke_path value =
    if not (trim_space value == value)
    then some surrounding_whitespace
    else if not (has_prefix value (codes "/"))
    then some relative
    else if value == codes "/"
    then some root
    else if contains_any value (32 ∷ 9 ∷ 13 ∷ 10 ∷ [])
    then some whitespace
    else if contains_any value (codes "?#")
    then some query_or_fragment
    else if contains value (codes "//")
    then some double_slash
    else none

abbrev pub or_duration : Duration → Duration → Duration
or_duration (pos n) fallback = if nat_beq n 0 then fallback else pos n
or_duration (negsuc n) fallback = negsuc n

-- the defaults of `setDefaults`, once the paths have passed
abbrev pub with_defaults : SmokeConfig → SmokeConfig
with_defaults c = record c {
  run_env = non_empty c.run_env (codes "RUN_BINARY_SMOKE");
  command_dir = non_empty c.command_dir (codes "./cmd");
  telemetry_path = non_empty c.telemetry_path (codes "/metrics");
  health_path = non_empty c.health_path (codes "/healthz");
  server_test_name = non_empty c.server_test_name (codes "serves health and metrics");
  startup_timeout = or_duration c.startup_timeout (pos 10_000_000_000);
  http_timeout = or_duration c.http_timeout (pos 500_000_000);
}

abbrev pub path_error : Text → Text → Option SmokePathError → Result SmokeError Unit
path_error name value none = ok tt
path_error name value (some e) = err (invalid_path name value e)

abbrev pub both :
    Result SmokeError Unit → Result SmokeError Unit → SmokeConfig → Result SmokeError SmokeConfig
both (err e) second c = err e
both (ok u) (err e) c = err e
both (ok u) (ok v) c = ok c

-- `setDefaults`
unfoldable pub set_defaults : SmokeConfig → Result SmokeError SmokeConfig
unfolding validate_smoke_path
set_defaults c =
    let d = with_defaults c in
    let result =
      both
        (path_error (codes "TelemetryPath") d.telemetry_path (validate_smoke_path d.telemetry_path))
        (path_error (codes "HealthPath") d.health_path (validate_smoke_path d.health_path)) d in
    if is_empty c.project_name then err project_name_required else result

-- the version that the test builds the binary with
abbrev pub version : Text
version = codes "v9.8.7"

abbrev pub branch : Text
branch = codes "smoke-branch"

abbrev pub revision : Text
revision = codes "abc123def"

-- `metricWants`
unfoldable pub metric_wants : SmokeConfig → List Text
metric_wants c =
    (if is_empty c.build_info_metric
      then []
      else c.build_info_metric
        ∷ (codes "version=" ++ 34 ∷ version ++ 34 ∷ [])
        ∷ (codes "branch=" ++ 34 ∷ branch ++ 34 ∷ [])
        ∷ (codes "revision=" ++ 34 ∷ revision ++ 34 ∷ [])
        ∷ [])
    ++ c.want_metrics

-- `containsAll`
unfoldable pub contains_all : Text → List Text → Bool
contains_all text wants = all (λ want. contains text want) wants

-- What `runServerSmokeAttempt` wants of a response of the metrics, and what it rejects.
unfoldable pub accepts_metrics : SmokeConfig → Text → Bool
unfolding contains_all metric_wants
accepts_metrics c metrics =
    contains_all metrics (metric_wants c)
    && all (λ reject. not (contains metrics reject)) c.reject_metrics
