-- ===== src/FeatureKit/Snapshot.antt =====
-- exporter/featurekit/snapshot.go: how a snapshot feature becomes a generic feature and a collector.
-- `S` are snapshots, `D` descriptors, `M` what the hooks write, `L` loggers and `G` what is logged.
-- The clock, `Now`, is left out: its readings are arguments of the collector's operations.
pub mod Interval
use prometheus_exporter_fram.Prelude.{
  Bool, true, false, Option, none, some, List, [], ◌++◌, Result, ok, ◌>>=◌, if◌then◌else◌, or_else,
}
use prometheus_exporter_fram.Clock.{Time, Duration, is_positive}
use prometheus_exporter_fram.Text.{Text, codes}
use prometheus_exporter_fram.App.Names.{non_empty}
use prometheus_exporter_fram.Metrics.Values.{normalize_duration}
use prometheus_exporter_fram.Snapshot.Collector.{
  Config, Context, Options, Status, new_config, default_refresh_interval,
}
use prometheus_exporter_fram.Snapshot.Emission.{CollectorDescs, Helps, new_descs}
use prometheus_exporter_fram.Report.{Any}
use prometheus_exporter_fram.Metrics.Descriptors.{MetricPanic}
use prometheus_exporter_fram.FeatureKit.{CollectorContext, FeatureSpec, Functions}

-- `framework.Snapshotter` and `SnapshotEngine`, which have the same method
abbrev pub Snapshotter : Type 0 → Type 0
Snapshotter S = Context → Time → S

-- `SnapshotMetrics`: what `Describe` sends, if it does not panic, and what `Collect` writes. An
-- implementation may log errors too, and is then a `SnapshotErrorLogger`.
pub record SnapshotMetrics (S D M L G : Type 0) : Type 0 where
  pub describe : Result MetricPanic (List D)
  pub collect : S → Time → List M
  pub log_snapshot_error : Option (L → S → G)

pub record MetricsContext (S : Type 0) : Type 0 where
  pub feature_name : Text
  pub namespace : Text
  pub snapshotter : Option (Snapshotter S)

-- `SnapshotMetricsFunc`, which may be `nil`, may return `nil` and may panic
abbrev pub MetricsFunc : Type 0 → Type 0 → Type 0 → Type 0 → Type 0 → Type 0
MetricsFunc S D M L G =
    Option (MetricsContext S → Result MetricPanic (Option (SnapshotMetrics S D M L G)))

pub record CollectorOptions (S D M L G : Type 0) : Type 0 where
  pub feature_name : Text
  pub default_feature_name : Text
  pub namespace : Text
  pub default_metric_namespace : Text
  pub logger : Option L
  pub snapshotter : Option (Snapshotter S)
  pub default_snapshotter : Option (Snapshotter S)
  pub refresh_interval : Duration
  pub default_refresh_interval : Duration
  pub sync_refresh_timeout : Duration
  pub status_func : Option (S → Status)
  pub describe_func : Option (Result MetricPanic (List D))
  pub collect_func : Option (S → Time → List M)
  pub error_log_func : Option (L → S → G)

-- `SpecOptions`
pub record SpecOptions : Type 0 where
  pub feature_name : Text
  pub default_refresh_interval : Duration
  pub fallback_refresh_interval : Duration

-- The framework's context: the namespace and the logger.
pub record Framework (L : Type 0) : Type 0 where
  pub namespace : Text
  pub logger : Option L

-- `SnapshotFeatureSpec`, without the flags and the smoke test
pub record SnapshotFeatureSpec (C S D M L G E : Type 0) : Type 0 where
  pub options : SpecOptions
  pub default_refresh_interval : Duration
  pub sync_refresh_timeout : Duration
  pub config : C
  pub prepare_config_func : Option (Text → C → C × Option E)
  pub validate_config_func : Option (C → Option E)
  pub new_snapshotter_func :
      Option (Framework L → CollectorContext C → Result E (Option (Snapshotter S)))
  pub default_snapshotter : Option (Snapshotter S)
  pub metrics_func : MetricsFunc S D M L G
  pub status_func : Option (S → Status)
  pub error_log_func : Option (L → S → G)
  pub runtime_config_func : Option (CollectorContext C → List Any)

-- What `framework.NewSnapshotCollector` keeps of its options.
pub record SnapshotCollector (S D M L G : Type 0) : Type 0 where
  pub config : Config S
  pub descs : CollectorDescs D
  pub logger : Option L
  pub describe_func : Option (Result MetricPanic (List D))
  pub collect_func : Option (S → Time → List M)
  pub error_log_func : Option (L → S → G)

-- the help texts of `NewSnapshotCollector`
abbrev pub helps_for : Text → Helps
helps_for name = record {
  last_collection_success_help =
      codes "Whether the last " ++ name ++ codes " data collection succeeded";
  last_collection_timestamp_help =
      codes "Unix timestamp of the last " ++ name ++ codes " data collection attempt";
  last_successful_collection_help =
      codes "Unix timestamp of the last successful " ++ name ++ codes " data collection";
  collection_duration_help = codes "Time spent refreshing " ++ name ++ codes " data collection";
}

-- `value`, or the other where it is `nil`
abbrev pub first_some : {A : Type 0} → Option A → Option A → Option A
first_some none fallback = fallback
first_some (some a) fallback = some a

module _ {S D M L G : Type 0} where
  -- `noopSnapshotMetrics`
  abbrev pub noop_metrics : SnapshotMetrics S D M L G
  noop_metrics = record { describe = ok []; collect = λ s now. []; log_snapshot_error = none }

  -- `newSnapshotMetrics`
  unfoldable pub new_snapshot_metrics :
      MetricsContext S → MetricsFunc S D M L G → Result MetricPanic (SnapshotMetrics S D M L G)
  new_snapshot_metrics ctx none = ok noop_metrics
  new_snapshot_metrics ctx (some metrics_func) =
      metrics_func ctx >>= λ metrics. ok (or_else metrics noop_metrics)

  -- the context of the metrics
  abbrev pub metrics_context : CollectorOptions S D M L G → MetricsContext S
  metrics_context o = record {
    feature_name = o.feature_name;
    namespace = o.namespace;
    snapshotter = o.snapshotter;
  }

  -- the options with the hooks of the metrics
  abbrev pub with_metrics :
      CollectorOptions S D M L G
      → Option (L → S → G)
      → SnapshotMetrics S D M L G
      → CollectorOptions S D M L G
  with_metrics o error_log_func metrics = record o {
    describe_func = some metrics.describe;
    collect_func = some metrics.collect;
    error_log_func =
        first_some error_log_func (first_some metrics.log_snapshot_error o.error_log_func);
  }

module _ {S D M L G : Type 0} (default_logger : L) where
  -- `ResolveSnapshotCollectorOptions`
  unfoldable pub resolve : CollectorOptions S D M L G → CollectorOptions S D M L G
  resolve o =
      let default_name = non_empty o.default_feature_name (codes "exporter") in
      let default_namespace = non_empty o.default_metric_namespace (codes "exporter") in
      let interval = normalize_duration o.default_refresh_interval default_refresh_interval in
      record o {
        default_feature_name = default_name;
        feature_name = non_empty o.feature_name default_name;
        default_metric_namespace = default_namespace;
        namespace = non_empty o.namespace default_namespace;
        logger = some (or_else o.logger default_logger);
        snapshotter = first_some o.snapshotter o.default_snapshotter;
        default_refresh_interval = interval;
        refresh_interval = normalize_duration o.refresh_interval interval;
      }

module _ {S D M L G : Type 0} (default_logger : L) (new_desc : Text → Text → List Text → D)
    (zero_snapshot : S) where
  -- `NewSnapshotCollector`
  unfoldable pub new_snapshot_collector : CollectorOptions S D M L G → SnapshotCollector S D M L G
  unfolding resolve new_config new_descs
  new_snapshot_collector options =
      let o = resolve default_logger options in
      let config = new_config zero_snapshot (record {
        namespace = o.namespace;
        snapshotter = o.snapshotter;
        refresh_interval = o.refresh_interval;
        sync_refresh_timeout = o.sync_refresh_timeout;
        status_func = o.status_func;
      }) in
      record {
        config = config;
        descs = new_descs new_desc config.namespace (helps_for o.feature_name);
        logger = o.logger;
        describe_func = o.describe_func;
        collect_func = o.collect_func;
        error_log_func = o.error_log_func;
      }

  -- `NewSnapshotMetricsCollector`
  unfoldable pub new_snapshot_metrics_collector :
      CollectorOptions S D M L G
      → MetricsFunc S D M L G
      → Result MetricPanic (SnapshotCollector S D M L G)
  unfolding resolve new_snapshot_metrics new_snapshot_collector
  new_snapshot_metrics_collector options metrics_func =
      let o = resolve default_logger options in
      new_snapshot_metrics (metrics_context o) metrics_func >>= λ metrics.
      ok (new_snapshot_collector (with_metrics o options.error_log_func metrics))

  -- `NewSnapshotFeatureSpec`
  unfoldable pub new_snapshot_feature_spec :
      {C E : Type 0}
      → SnapshotFeatureSpec C S D M L G E
      → FeatureSpec C (Snapshotter S) (SnapshotCollector S D M L G) (Framework L) E
  unfolding new_snapshot_metrics_collector
  new_snapshot_feature_spec spec =
      let interval =
        normalize_duration spec.options.default_refresh_interval spec.default_refresh_interval in
      let fallback =
        normalize_duration spec.options.fallback_refresh_interval spec.default_refresh_interval in
      record {
        feature_name = spec.options.feature_name;
        default_refresh_interval = interval;
        fallback_refresh_interval = normalize_duration fallback default_refresh_interval;
        config = spec.config;
        functions = record {
          prepare_config_func = spec.prepare_config_func;
          validate_config_func = spec.validate_config_func;
          new_snapshotter_func = spec.new_snapshotter_func;
          new_collector_func = some (λ feature_name framework snapshotter refresh_interval.
              new_snapshot_metrics_collector
                (record {
                  feature_name = feature_name;
                  default_feature_name = [];
                  namespace = framework.namespace;
                  default_metric_namespace = [];
                  logger = framework.logger;
                  snapshotter = snapshotter;
                  default_snapshotter = spec.default_snapshotter;
                  refresh_interval = refresh_interval;
                  default_refresh_interval = interval;
                  sync_refresh_timeout = spec.sync_refresh_timeout;
                  status_func = spec.status_func;
                  describe_func = none;
                  collect_func = none;
                  error_log_func = spec.error_log_func;
                })
                spec.metrics_func
              >>= λ collector. ok (some collector));
          runtime_config_func = spec.runtime_config_func;
        };
      }
