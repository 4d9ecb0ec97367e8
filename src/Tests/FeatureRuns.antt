-- ===== src/Tests/FeatureRuns.antt =====
-- Features whose configurations, snapshots, descriptors and errors are numbers.
use prometheus_exporter_fram.Prelude.{
  ℕ, ◌+◌, true, false, not, Option, none, some, List, [], ◌∷◌, ◌++◌, ◌≡◌, refl, ok, err, pos,
  nat_eq, if◌then◌else◌, ◌==◌, list_eq,
}
use prometheus_exporter_fram.Clock.{is_positive}
use prometheus_exporter_fram.Text.{Text, codes, is_empty, trim_space, is_space}
use prometheus_exporter_fram.App.Names.{non_empty}
use prometheus_exporter_fram.Report.{text, boolean, duration, runtime_config_value}
use prometheus_exporter_fram.Metrics.Values.{normalize_duration}
use prometheus_exporter_fram.Snapshot.Collector.{default_refresh_interval}
use prometheus_exporter_fram.FeatureKit.Snapshot.{SnapshotFeatureSpec, SpecOptions, Framework}
use prometheus_exporter_fram.FeatureKit.Snapshot.Interval.{
  Refreshes, first_positive, build_collector, flagged, build_collector-Refreshes,
}
use prometheus_exporter_fram.FeatureKit.Extension.{
  Extension, feature_config_file, default_config_file, resolved_by,
}
use prometheus_exporter_fram.FeatureKit.Extended.{new_extended_feature, report}
use prometheus_exporter_fram.FeatureKit.Extended.Reported.{parsed, reported_file, report-reads}
use prometheus_exporter_fram.FeatureKit.ConfigFile.{FileOps, load_feature_config_file}
use prometheus_exporter_fram.FeatureKit.ConfigFile.Outcomes.{
  Outcome, load_feature_config_file-Outcome,
}
use prometheus_exporter_fram.Metrics.Descriptors.{MetricSpec, feature}
use prometheus_exporter_fram.FeatureKit.Extended.Described.{
  DescribesSpecs, build_collector-DescribesSpecs,
}

abbrev new_desc : Text → Text → List Text → ℕ
new_desc name help labels = 0

abbrev spec_options : SpecOptions
spec_options = record {
  feature_name = codes "demo";
  default_refresh_interval = pos 0;
  fallback_refresh_interval = pos 30;
}

abbrev snapshot_spec : SnapshotFeatureSpec ℕ ℕ ℕ ℕ ℕ ℕ ℕ
snapshot_spec = record {
  options = spec_options;
  default_refresh_interval = pos 0;
  sync_refresh_timeout = pos 0;
  config = 7;
  prepare_config_func = none;
  validate_config_func = none;
  new_snapshotter_func = none;
  default_snapshotter = some (λ c t. 1);
  metrics_func = none;
  status_func = none;
  error_log_func = none;
  runtime_config_func = none;
}

abbrev framework : Framework ℕ
framework = record { namespace = codes "demo"; logger = none }

build_collector-Refreshes_example :
    let interval = first_positive (pos 0 ∷ pos 0 ∷ pos 0 ∷ pos 30 ∷ []) default_refresh_interval in
    Refreshes snapshot_spec.metrics_func interval
      (build_collector (flagged 0 new_desc 0 snapshot_spec (pos 0)) framework none)
    × (is_positive interval ≡ true)
build_collector-Refreshes_example =
    build_collector-Refreshes 0 new_desc 0 snapshot_spec (pos 0) framework none

-- A file is there under one path, and is an empty document.
abbrev files : FileOps ℕ ℕ ℕ ℕ
files = record {
  read_file = λ path. if path == codes "/a.yml" then ok 1 else err 2;
  is_not_exist = λ e. e == 2;
  decode = λ target contents. (target, some contents);
  is_eof = λ e. e == 1;
}

abbrev join_path : Text → Text → Text
join_path dir name = dir ++ codes "/" ++ name

load_feature_config_file-Outcome_example :
    let path =
      non_empty (trim_space (codes " /a.yml ")) (default_config_file join_path (codes "demo")) in
    Outcome files
      (files.read_file path)
      (not (is_empty (trim_space (codes " /a.yml "))))
      path
      5
      (load_feature_config_file files join_path (codes "demo") (codes " /a.yml ") 5)
load_feature_config_file-Outcome_example =
    load_feature_config_file-Outcome files join_path (codes "demo") (codes " /a.yml ") 5

missing_default : load_feature_config_file files join_path (codes "demo") [] 5 ≡ record {
  target = 5;
  path = codes "/etc/prometheus/prometheus-demo-exporter.yml";
  loaded = false;
  error = none;
}
unfolding load_feature_config_file default_config_file trim_space is_space
missing_default = refl

abbrev extension : Extension ℕ ℕ ℕ ℕ ℕ ℕ ℕ
extension = record {
  default_refresh_interval = pos 60;
  sync_refresh_timeout = pos 0;
  default_config_func = none;
  config_file_func = none;
  validate_config_func = none;
  resolve_config_func = some (λ name c. (c + 1, codes "/a.yml", true, none));
  runtime_config_func = none;
  snapshot_engine_factory = none;
  default_snapshot_engine = some (λ c t. 1);
  new_snapshotter_func = none;
  default_snapshotter = none;
  metric_specs = [];
  metric_handlers = record { collect = none; log_error = none };
  metrics_func = none;
  status_func = none;
  error_log_func = none;
}

abbrev file_of : ℕ → Option Text
file_of c = some (codes "/b.yml")

abbrev show_error : ℕ → Text
show_error e = e ∷ []

report-reads_example :
    let ext = record extension { config_file_func = some file_of } in
    let x = new_extended_feature join_path 0 new_desc 0 0 spec_options ext in
    let f = x.feature in
    let fallback =
      non_empty
        (feature_config_file 3 (some file_of))
        (default_config_file join_path f.feature_name) in
    let (file, loaded) = reported_file fallback (resolved_by join_path ext f.feature_name 3) in
    let values = (report join_path ext show_error (parsed x 3 (pos 0))).1 in
    (runtime_config_value values (codes "refresh_interval")
      ≡ some (duration (normalize_duration (pos 0) f.default_refresh_interval)))
    × (runtime_config_value values (codes "config_file") ≡ some (text file))
    × (runtime_config_value values (codes "config_file_loaded") ≡ some (boolean loaded))
report-reads_example =
    report-reads join_path 0 new_desc 0 0 show_error spec_options extension file_of 3 (pos 0)

abbrev spec : MetricSpec
spec = record { id = codes "up"; scope = feature; name = codes "_up"; help = []; labels = [] }

build_collector-DescribesSpecs_example :
    let ext = record extension { metrics_func = none; metric_specs = spec ∷ [] } in
    let f = (new_extended_feature join_path 0 new_desc 0 0 spec_options ext).feature in
    DescribesSpecs new_desc f.feature_name
      (non_empty framework.namespace (codes "exporter"))
      (spec ∷ [])
      (build_collector f framework none)
build_collector-DescribesSpecs_example =
    build_collector-DescribesSpecs join_path 0 new_desc 0 0 spec_options extension spec [] framework
      none
