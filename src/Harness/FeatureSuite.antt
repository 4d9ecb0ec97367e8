-- ===== src/Harness/FeatureSuite.antt =====
-- exporter/exportertest/featuretest/suite.go: the suite of a feature's tests, the names and values that
-- its specification leaves out, and the reports that its tests expect. A test function of a feature
-- is a value of `T`; the bodies of the suite's own tests are left out.
pub mod Unique
use prometheus_exporter_fram.Prelude.{
  Bool, true, false, not, Option, none, some, List, [], ◌∷◌, ◌++◌, Result, ok, err, ◌==◌, list_eq,
  nat_eq, any, map, pos, if◌then◌else◌,
}
use prometheus_exporter_fram.Assoc.{Assoc, insert}
use prometheus_exporter_fram.Clock.{Duration, is_positive}
use prometheus_exporter_fram.Text.{Text, codes, is_empty}
use prometheus_exporter_fram.App.Names.{non_empty}
use prometheus_exporter_fram.FeatureKit.Extension.{default_config_file}
use prometheus_exporter_fram.Report.{Any, boolean, duration, text}
use prometheus_exporter_fram.Snapshot.Collector.{default_refresh_interval}

-- the methods that `NewFeatureTestSuite` registers, and a feature's own functions
pub data TestFunc (T : Type 0) : Type 0 where
  exporter_contract : TestFunc T
  exporter_registers_collectors : TestFunc T
  contract_feature_defaults : TestFunc T
  feature_config_file_hook : TestFunc T
  feature_config_file_loader : TestFunc T
  smoke_spec_includes_config_file : TestFunc T
  metric_name_contract : TestFunc T
  collector_defaults_and_failure_metrics : TestFunc T
  collector_background_refresh : TestFunc T
  collector_uses_default_snapshotter : TestFunc T
  own : T → TestFunc T

pub data SuitePanic : Type 0 where
  name_required : SuitePanic
  function_required : SuitePanic
  already_registered : Text → SuitePanic

abbrev pub Tests : Type 0 → Type 0
Tests T = List (Text × TestFunc T)

abbrev pub Call : Type 0 → Type 0
Call T = Text × Option (TestFunc T)

-- `HasString`
unfoldable pub has_string : List Text → Text → Bool
has_string values want = any (λ value. value == want) values

module _ {T : Type 0} where
  abbrev pub names : Tests T → List Text
  names tests = map (λ t. t.0) tests

  -- `Register`
  unfoldable pub register : Tests T → Text → Option (TestFunc T) → Result SuitePanic (Tests T)
  register tests name none = if is_empty name then err name_required else err function_required
  register tests name (some run) =
      if is_empty name
      then err name_required
      else if any (λ test. test.0 == name) tests
      then err (already_registered name)
      else ok (tests ++ (name, run) ∷ [])

  -- calls of `Register`, up to the first that panics
  unfoldable pub register_all : Tests T → List (Call T) → Result SuitePanic (Tests T)
  unfolding register
  register_all tests [] = ok tests
  register_all tests (call ∷ calls) = elim (register tests call.0 call.1) [
    | err p ↦ err p
    | ok registered ↦ register_all registered calls
  ]

  -- the calls of `NewFeatureTestSuite`
  unfoldable pub standard_calls : Bool → Bool → List (Call T)
  standard_calls skip_register_collectors_test check_default_snapshotter =
      (codes "exporter_contract", some exporter_contract)
        ∷ (if skip_register_collectors_test
            then []
            else (codes "exporter_registers_collectors", some exporter_registers_collectors) ∷ [])
      ++ (codes "contract_feature_defaults", some contract_feature_defaults)
        ∷ (codes "feature_config_file_hook", some feature_config_file_hook)
        ∷ (codes "feature_config_file_loader", some feature_config_file_loader)
        ∷ (codes "smoke_spec_includes_config_file", some smoke_spec_includes_config_file)
        ∷ (codes "metric_name_contract", some metric_name_contract)
        ∷ (
          codes "collector_defaults_and_failure_metrics",
          some collector_defaults_and_failure_metrics,
        )
        ∷ (
          codes "collector_background_refresh_updates_snapshot_outside_scrape",
          some collector_background_refresh,
        )
        ∷ (if check_default_snapshotter
            then (
              codes "collector_uses_default_snapshotter",
              some collector_uses_default_snapshotter,
            )
              ∷ []
            else [])

  -- `NewFeatureTestSuite`
  unfoldable pub new_feature_test_suite : Bool → Bool → Result SuitePanic (Tests T)
  unfolding register_all standard_calls
  new_feature_test_suite skip_register_collectors_test check_default_snapshotter =
      register_all [] (standard_calls skip_register_collectors_test check_default_snapshotter)

  -- `RunTests`: the subtests that it starts, in order; without a test it ends
  unfoldable pub run_tests : Tests T → Option (Tests T)
  run_tests [] = none
  run_tests (test ∷ tests) = some (test ∷ tests)

-- `mergeRuntimeConfig`
abbrev copy_all : Assoc Text Any → Assoc Text Any → Assoc Text Any
copy_all merged [] = merged
copy_all merged ((key, value) ∷ config) = copy_all (insert key value merged) config

unfoldable pub merge_runtime_config : Assoc Text Any → Assoc Text Any → Assoc Text Any
unfolding insert
merge_runtime_config base overrides = copy_all (copy_all [] base) overrides

-- `FeatureTestSpec`, what the suite's names and reports are made of
pub record FeatureTestSpec : Type 0 where
  pub feature_name : Text
  pub metric_namespace : Text
  pub exporter_name : Text
  pub default_refresh_interval : Duration
  pub default_feature_config_file_name : Text
  pub contract_flag_args : List Text
  pub contract_runtime_config : Assoc Text Any
  pub skip_contract_last_collection_success_metric : Bool
  pub default_runtime_config : Assoc Text Any

module _ (spec : FeatureTestSpec) where
  -- `featureName`, `metricNamespace` and `exporterName`
  unfoldable pub feature_name : Text
  feature_name = non_empty spec.feature_name (codes "exporter")

  unfoldable pub metric_namespace : Text
  metric_namespace = non_empty spec.metric_namespace (codes "exporter")

  unfoldable pub exporter_name : Text
  exporter_name = non_empty spec.exporter_name (codes "prometheus-exporter")

  -- `defaultRefreshInterval`
  unfoldable pub suite_refresh_interval : Duration
  suite_refresh_interval =
      if is_positive spec.default_refresh_interval
      then spec.default_refresh_interval
      else default_refresh_interval

  -- `defaultFeatureConfigFileName`
  unfoldable pub default_feature_config_file_name : Text
  unfolding feature_name
  default_feature_config_file_name =
      non_empty spec.default_feature_config_file_name
        (codes "prometheus-" ++ feature_name ++ codes "-exporter.yml")

  -- `LastCollectionSuccessMetric`, `LastCollectionTimestampMetric` and
  -- `LastSuccessfulCollectionTimestampMetric`
  unfoldable pub last_collection_success_metric : Text
  unfolding metric_namespace
  last_collection_success_metric = metric_namespace ++ codes "_last_collection_success"

  unfoldable pub last_collection_timestamp_metric : Text
  unfolding metric_namespace
  last_collection_timestamp_metric = metric_namespace ++ codes "_last_collection_timestamp_seconds"

  unfoldable pub last_successful_collection_timestamp_metric : Text
  unfolding metric_namespace
  last_successful_collection_timestamp_metric =
      metric_namespace ++ codes "_last_successful_collection_timestamp_seconds"

  -- what `testExporterContract` gives to `RunFeatureContract`
  unfoldable pub contract_flags : List Text
  unfolding feature_name
  contract_flags =
      (codes "--" ++ feature_name ++ codes ".refresh-interval=30s") ∷ spec.contract_flag_args

  unfoldable pub contract_report : (Text → Text → Text) → Assoc Text Any
  unfolding merge_runtime_config feature_name
  contract_report join_path =
      merge_runtime_config
        ((codes "refresh_interval", duration (pos 30_000_000_000))
          ∷ (codes "config_file", text (default_config_file join_path feature_name))
          ∷ (codes "config_file_loaded", boolean false)
          ∷ [])
        spec.contract_runtime_config

  unfoldable pub contract_success_metric : Text
  unfolding last_collection_success_metric
  contract_success_metric =
      if spec.skip_contract_last_collection_success_metric
      then []
      else last_collection_success_metric

  -- the report that `testContractFeatureDefaults` expects
  unfoldable pub default_report : (Text → Text → Text) → Assoc Text Any
  unfolding merge_runtime_config suite_refresh_interval
  default_report join_path =
      merge_runtime_config
        ((codes "refresh_interval", duration suite_refresh_interval)
          ∷ (codes "config_file", text (default_config_file join_path []))
          ∷ (codes "config_file_loaded", boolean false)
          ∷ [])
        spec.default_runtime_config

  -- `testSmokeSpecIncludesConfigFile`: whether the test goes on, with these `ServerArgs`
  unfoldable pub includes_config_file : List Text → Bool
  unfolding has_string feature_name default_feature_config_file_name
  includes_config_file server_args = has_string server_args (
      codes "--"
      ++ feature_name
      ++ codes ".config-file=../examples/"
      ++ default_feature_config_file_name)
