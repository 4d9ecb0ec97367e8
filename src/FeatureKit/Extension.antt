-- ===== src/FeatureKit/Extension.antt =====
-- exporter/featurekit/extension.go and the hooks of metrics.go: a snapshot feature from the parts
-- of an extension, and its config file. `join_path` is `path.Join` of a directory and a name.
-- A `*string` that points into the configuration is what it points to, `nil` is `none`.
use prometheus_exporter_fram.Prelude.{
  Bool, true, false, not, ◌&&◌, Option, none, some, List, [], ◌∷◌, ◌++◌, Result, ok, ◌>>=◌,
  if◌then◌else◌,
}
use prometheus_exporter_fram.Assoc.{has}
use prometheus_exporter_fram.Clock.{Time, Duration}
use prometheus_exporter_fram.Text.{Text, codes, trim_space}
use prometheus_exporter_fram.App.Names.{non_empty}
use prometheus_exporter_fram.Report.{Any}
use prometheus_exporter_fram.Snapshot.Collector.{Status}
use prometheus_exporter_fram.Metrics.Descriptors.{
  MetricSpec, MetricPanic, Descriptors, load, describe,
}
use prometheus_exporter_fram.FeatureKit.{CollectorContext}
use prometheus_exporter_fram.FeatureKit.Snapshot.{
  Snapshotter, SnapshotMetrics, MetricsContext, MetricsFunc, Framework, first_some,
}

-- `FeatureMetricsContext`
pub record FeatureMetricsContext (S D : Type 0) : Type 0 where
  pub context : MetricsContext S
  pub descriptors : Descriptors D

-- `FeatureMetricHandlers`
pub record MetricHandlers (S D M L G : Type 0) : Type 0 where
  pub collect : Option (FeatureMetricsContext S D → S → Time → List M)
  pub log_error : Option (FeatureMetricsContext S D → L → S → List G)

-- `FeatureConfigResolver`: the configuration, the file, whether it was loaded, and the error.
abbrev pub Resolver : Type 0 → Type 0 → Type 0
Resolver C E = Text → C → C × Text × Bool × Option E

-- `SnapshotFeatureExtension`, without the flags and the smoke test; what is logged is a list.
pub record Extension (C S D M L G E : Type 0) : Type 0 where
  pub default_refresh_interval : Duration
  pub sync_refresh_timeout : Duration
  pub default_config_func : Option C
  pub config_file_func : Option (C → Option Text)
  pub validate_config_func : Option (C → Option E)
  pub resolve_config_func : Option (Resolver C E)
  pub runtime_config_func : Option (CollectorContext C → C → List Any)
  pub snapshot_engine_factory : Option (CollectorContext C → Result E (Option (Snapshotter S)))
  pub default_snapshot_engine : Option (Snapshotter S)
  pub new_snapshotter_func :
      Option (Framework L → CollectorContext C → Result E (Option (Snapshotter S)))
  pub default_snapshotter : Option (Snapshotter S)
  pub metric_specs : List MetricSpec
  pub metric_handlers : MetricHandlers S D M L G
  pub metrics_func : MetricsFunc S D M L (List G)
  pub status_func : Option (S → Status)
  pub error_log_func : Option (L → S → List G)

-- `snapshotExtensionConfigState`, the fields that change
pub record ConfigState : Type 0 where
  pub config_file : Text
  pub loaded : Bool
  pub prepared : Bool

abbrev pub new_config_state : ConfigState
new_config_state = record { config_file = []; loaded = false; prepared = false }

module _ (join_path : Text → Text → Text) where
  -- `DefaultFeatureConfigFile`
  unfoldable pub default_config_file : Text → Text
  default_config_file feature_name = join_path (codes "/etc/prometheus") (
      codes "prometheus-"
      ++ non_empty (trim_space feature_name) (codes "exporter")
      ++ codes "-exporter.yml")

-- `featureConfigFile`
abbrev pub trimmed_file : Option Text → Text
trimmed_file none = []
trimmed_file (some file) = trim_space file

unfoldable pub feature_config_file : {C : Type 0} → C → Option (C → Option Text) → Text
feature_config_file config none = []
feature_config_file config (some file_of) = trimmed_file (file_of config)

module _ {C E : Type 0} (join_path : Text → Text → Text) where
  -- `ResolveFeatureConfig`
  unfoldable pub resolve_feature_config :
      Text → C → Option (C → Option Text) → Option (Resolver C E) → C × Text × Bool × Option E
  unfolding feature_config_file default_config_file
  resolve_feature_config feature_name config file_func (some resolver) =
      resolver feature_name config
  resolve_feature_config feature_name config none none = (config, [], false, none)
  resolve_feature_config feature_name config (some file_of) none = (
    config,
    non_empty (feature_config_file config (some file_of))
        (default_config_file join_path feature_name),
    false,
    none,
  )

-- the hooks of `featureMetrics`
abbrev pub collected :
    {S D M : Type 0}
    → Option (FeatureMetricsContext S D → S → Time → List M)
    → FeatureMetricsContext S D
    → S
    → Time
    → List M
collected none ctx snapshot now = []
collected (some collect) ctx snapshot now = collect ctx snapshot now

abbrev pub logged :
    {S D L G : Type 0}
    → Option (FeatureMetricsContext S D → L → S → List G)
    → FeatureMetricsContext S D
    → L
    → S
    → List G
logged none ctx logger snapshot = []
logged (some log_error) ctx logger snapshot = log_error ctx logger snapshot

-- `featureMetrics` of loaded descriptors
module _ {S D M L G : Type 0} where
  unfoldable pub feature_metrics :
      FeatureMetricsContext S D → MetricHandlers S D M L G → SnapshotMetrics S D M L (List G)
  unfolding describe
  feature_metrics ctx handlers = record {
    describe = describe ctx.descriptors;
    collect = collected handlers.collect ctx;
    log_snapshot_error = some (logged handlers.log_error ctx);
  }

  -- `NewFeatureMetrics`
  unfoldable pub new_feature_metrics :
      (Text → Text → List Text → D)
      → MetricsContext S
      → List MetricSpec
      → MetricHandlers S D M L G
      → Result MetricPanic (SnapshotMetrics S D M L (List G))
  unfolding load feature_metrics
  new_feature_metrics new_desc ctx specs handlers =
      load new_desc ctx.feature_name ctx.namespace specs >>= λ d.
      ok (feature_metrics (record { context = ctx; descriptors = d }) handlers)

-- what of the extension makes a snapshotter
abbrev pub made_by :
    {X C E N : Type 0}
    → Option (X → C → Result E N)
    → Option (C → Result E N)
    → Option (X → C → Result E N)
made_by (some make) factory = some make
made_by none none = none
made_by none (some factory) = some (λ framework ctx. factory ctx)

abbrev pub no_specs : List MetricSpec → Bool
no_specs [] = true
no_specs (s ∷ specs) = false

module _ {C S D M L G E : Type 0} where
  -- `snapshotExtensionNewSnapshotter`
  unfoldable pub extension_new_snapshotter :
      Extension C S D M L G E
      → Option (Framework L → CollectorContext C → Result E (Option (Snapshotter S)))
  extension_new_snapshotter ext = made_by ext.new_snapshotter_func ext.snapshot_engine_factory

  -- `snapshotExtensionDefaultSnapshotter`
  unfoldable pub extension_default_snapshotter : Extension C S D M L G E → Option (Snapshotter S)
  extension_default_snapshotter ext = first_some ext.default_snapshotter ext.default_snapshot_engine

  -- `snapshotExtensionMetricsFunc`
  unfoldable pub extension_metrics_func :
      (Text → Text → List Text → D) → Extension C S D M L G E → MetricsFunc S D M L (List G)
  unfolding new_feature_metrics
  extension_metrics_func new_desc ext =
      let handlers = ext.metric_handlers in
      first_some ext.metrics_func (
        if no_specs ext.metric_specs && not (has handlers.collect) && not (has handlers.log_error)
        then none
        else some (λ ctx.
          new_feature_metrics new_desc ctx ext.metric_specs handlers >>= λ m. ok (some m)))

module _ {C S D M L G E : Type 0} (join_path : Text → Text → Text) where
  abbrev pub resolved_by : Extension C S D M L G E → Text → C → C × Text × Bool × Option E
  resolved_by ext name config =
      resolve_feature_config join_path name config ext.config_file_func ext.resolve_config_func

  -- `prepareConfigFunc`, without the state that it leaves
  unfoldable pub extension_prepare : Extension C S D M L G E → Option (Text → C → C × Option E)
  unfolding resolve_feature_config
  extension_prepare ext =
      if not (has ext.config_file_func) && not (has ext.resolve_config_func)
      then none
      else some (λ name config. let r = resolved_by ext name config in (r.0, r.3))
