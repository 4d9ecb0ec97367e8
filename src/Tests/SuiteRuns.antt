-- ===== src/Tests/SuiteRuns.antt =====
-- A feature's test suite, the answers of the handlers and the smoke test of a server, on small inputs.
use prometheus_exporter_fram.Prelude.{
  ℕ, true, false, ◌&&◌, none, some, List, [], ◌∷◌, ◌++◌, ok, err, ◌>>=◌, ◌≡◌, refl, list_eq, nat_eq,
  pos,
}
use prometheus_exporter_fram.Assoc.{lookup, insert, erase}
use prometheus_exporter_fram.Text.{Text, codes, contains}
use prometheus_exporter_fram.Report.{boolean}
use prometheus_exporter_fram.Metrics.Descriptors.Loading.{is_ok}
use prometheus_exporter_fram.Harness.FeatureSuite.{
  FeatureTestSpec, TestFunc, own, Call, register_all, standard_calls, new_feature_test_suite,
  already_registered, run_tests, contract_report, default_feature_config_file_name,
}
use prometheus_exporter_fram.Harness.FeatureSuite.Unique.{
  called, complete, different, given, new_feature_test_suite-register_all,
}
use prometheus_exporter_fram.Harness.Smoke.{SmokeConfig, with_defaults, metric_wants, contains_all}
use prometheus_exporter_fram.Harness.Smoke.Server.{
  Response, Attempt, exited_during_startup, wait_for_health, wait_for_metrics,
  run_server_smoke_attempt, smoke_loop, run_server_smoke,
}
use prometheus_exporter_fram.App.Handler.{HandlerOptions}
use prometheus_exporter_fram.App.Handler.Answers.{landing_page, page, http_error}

abbrev own_calls : List (Call ℕ)
own_calls = (codes "lists_files", some (own 1)) ∷ (codes "fails_without_files", some (own 2)) ∷ []

new_feature_test_suite-register_all_example :
    let standard = standard_calls {T = ℕ} false true in
    let suite = new_feature_test_suite false true >>= λ tests. register_all tests own_calls in
    (is_ok suite ≡ (complete own_calls && different (called standard ++ called own_calls)))
    × (is_ok suite ≡ true
        → (suite >>= λ tests. ok (run_tests tests)) ≡ ok (some (given standard ++ given own_calls)))
new_feature_test_suite-register_all_example =
    new_feature_test_suite-register_all false true own_calls

accepted_calls :
    is_ok (new_feature_test_suite false true >>= λ tests. register_all tests own_calls) ≡ true
unfolding new_feature_test_suite register_all standard_calls
accepted_calls = refl

-- The names of the suite's own tests are taken.
taken_name :
    (new_feature_test_suite {T = ℕ} true false >>= λ (tests : List (Text × TestFunc ℕ)).
    register_all tests ((codes "metric_name_contract", some (own 1)) ∷ []))
    ≡ err (already_registered (codes "metric_name_contract"))
unfolding new_feature_test_suite register_all standard_calls
taken_name = refl

abbrev spec : FeatureTestSpec
spec = record {
  feature_name = codes "demo";
  metric_namespace = [];
  exporter_name = [];
  default_refresh_interval = pos 0;
  default_feature_config_file_name = [];
  contract_flag_args = [];
  contract_runtime_config = (codes "config_file_loaded", boolean true) ∷ [];
  skip_contract_last_collection_success_metric = false;
  default_runtime_config = [];
}

overridden :
    lookup (codes "config_file_loaded") (contract_report spec (λ dir file. file))
    ≡ some (boolean true)
unfolding contract_report lookup insert erase
overridden = refl

default_file : default_feature_config_file_name spec ≡ codes "prometheus-demo-exporter.yml"
unfolding default_feature_config_file_name
default_file = refl

abbrev handler_options : HandlerOptions ℕ
handler_options = record {
  name = codes "demo";
  description = [];
  metrics_path = codes "/metrics";
  registry = none;
  enable_pprof = true;
}

shown_links :
    landing_page {P = Text × List (Text × Text)}
      (λ config. ok (config.profiling, config.links))
      (codes "v1")
      handler_options
    ≡ page (
      codes "true",
      (codes "/metrics", codes "Metrics") ∷ (codes "/healthz", codes "Health") ∷ [],
    )
unfolding landing_page
shown_links = refl

failed_landing :
    landing_page {P = ℕ} (λ config. err (codes "no template")) (codes "v1") handler_options
    ≡ http_error (codes "no template") 500
unfolding landing_page
failed_landing = refl

abbrev healthy : Response
healthy = record { status = 200; body = some (codes "ok" ++ 10 ∷ []) }

abbrev up : Attempt
up = record {
  starts = true;
  ends_early = false;
  health_start = 0;
  health_rounds = record { now = 1; exited = false; response = some healthy } ∷ [];
  health = some healthy;
  metrics_start = 2;
  metrics_rounds =
      record {
        now = 3;
        exited = false;
        response = some (record { status = 200; body = some (codes "files 3") });
      }
      ∷ [];
}

abbrev down : Attempt
down = record up { ends_early = true }

abbrev smoke : SmokeConfig
smoke = with_defaults (record {
  project_name = codes "demo";
  build_info_metric = [];
  server_test_name = [];
  want_metrics = codes "files" ∷ [];
  reject_metrics = codes "errors" ∷ [];
  run_env = [];
  command_dir = [];
  telemetry_path = [];
  health_path = [];
  startup_timeout = pos 0;
  http_timeout = pos 0;
})

-- A server that ends at once is started again.
second_start : run_server_smoke smoke (down ∷ up ∷ []) ≡ some (ok (codes "files 3"))
unfolding run_server_smoke smoke_loop run_server_smoke_attempt wait_for_health wait_for_metrics
    metric_wants contains_all contains
second_start = refl

-- After five such attempts the test fails.
no_start :
    run_server_smoke smoke (down ∷ down ∷ down ∷ down ∷ down ∷ [])
    ≡ some (err exited_during_startup)
unfolding run_server_smoke smoke_loop run_server_smoke_attempt
no_start = refl
