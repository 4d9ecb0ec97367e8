-- ===== src/FeatureKit/Contract.antt =====
-- exporter/featurekit/contract.go: a snapshot feature from a contract, an interface whose methods are
-- the fields here. `FeatureDefaults` is what a contract embeds. The flags and the smoke test are left
-- out.
use prometheus_exporter_fram.Prelude.{false, Option, none, some, List, [], Result, ok, or_else, pos}
use prometheus_exporter_fram.Clock.{Duration}
use prometheus_exporter_fram.Text.{Text}
use prometheus_exporter_fram.Report.{Any}
use prometheus_exporter_fram.Snapshot.Collector.{Status}
use prometheus_exporter_fram.Metrics.Descriptors.{MetricPanic}
use prometheus_exporter_fram.FeatureKit.{CollectorContext, Feature, FeatureSpec, new_feature}
use prometheus_exporter_fram.FeatureKit.Snapshot.{
  Snapshotter, SnapshotMetrics, MetricsContext, SpecOptions, Framework, SnapshotCollector,
  new_snapshot_feature_spec,
}

-- `FeatureContract`; `sync_refresh_timeout` is there if it is a `featureSyncRefreshTimeout` too.
pub record FeatureContract (C S D M L G E : Type 0) : Type 0 where
  pub default_refresh_interval : Duration
  pub default_config : C
  pub validate_config : C → Option E
  pub new_snapshotter : Framework L → CollectorContext C → Result E (Option (Snapshotter S))
  pub default_snapshotter : Option (Snapshotter S)
  pub new_metrics : MetricsContext S → Result MetricPanic (Option (SnapshotMetrics S D M L G))
  pub snapshot_status : S → Status
  pub runtime_config : CollectorContext C → List Any
  pub sync_refresh_timeout : Option Duration

module _ {C S D M L G E : Type 0} (zero_config : C) where
  -- `FeatureDefaults`
  unfoldable pub feature_defaults : FeatureContract C S D M L G E
  feature_defaults = record {
    default_refresh_interval = pos 0;
    default_config = zero_config;
    validate_config = λ config. none;
    new_snapshotter = λ framework ctx. ok none;
    default_snapshotter = none;
    new_metrics = λ ctx. ok none;
    snapshot_status = λ s. record { attempt_time = 0; success = false };
    runtime_config = λ ctx. [];
    sync_refresh_timeout = none;
  }

  -- `contractSyncRefreshTimeout`
  abbrev pub contract_sync_refresh_timeout : FeatureContract C S D M L G E → Duration
  contract_sync_refresh_timeout contract = or_else contract.sync_refresh_timeout (pos 0)

  -- `NewContractSnapshotFeatureSpec`
  unfoldable pub new_contract_spec :
      L
      → (Text → Text → List Text → D)
      → S
      → SpecOptions
      → Option (FeatureContract C S D M L G E)
      → FeatureSpec C (Snapshotter S) (SnapshotCollector S D M L G) (Framework L) E
  unfolding new_snapshot_feature_spec feature_defaults
  new_contract_spec default_logger new_desc zero_snapshot options given =
      let contract = or_else given feature_defaults in
      new_snapshot_feature_spec default_logger new_desc zero_snapshot (record {
        options = options;
        default_refresh_interval = contract.default_refresh_interval;
        sync_refresh_timeout = contract_sync_refresh_timeout contract;
        config = contract.default_config;
        prepare_config_func = none;
        validate_config_func = some contract.validate_config;
        new_snapshotter_func = some contract.new_snapshotter;
        default_snapshotter = contract.default_snapshotter;
        metrics_func = some contract.new_metrics;
        status_func = some contract.snapshot_status;
        error_log_func = none;
        runtime_config_func = some contract.runtime_config;
      })

  -- `NewContractFeature`
  unfoldable pub new_contract_feature :
      L
      → (Text → Text → List Text → D)
      → S
      → SpecOptions
      → Option (FeatureContract C S D M L G E)
      → Feature C (Snapshotter S) (SnapshotCollector S D M L G) (Framework L) E
  unfolding new_contract_spec new_feature
  new_contract_feature default_logger new_desc zero_snapshot options contract =
      new_feature (new_contract_spec default_logger new_desc zero_snapshot options contract)
