-- ===== src/FeatureKit/Extended.antt =====
-- exporter/featurekit/extension.go: the spec of an extended feature, and what its closures share,
-- the state of the config file. The closures of `NewSnapshotExtensionFeatureSpec` see the state at
-- the time of the call, so the spec is given it.
pub mod Reported
pub mod Described
use prometheus_exporter_fram.Prelude.{
  Bool, true, false, not, ◌&&◌, Option, none, some, List, [], ◌∷◌, ◌++◌, if◌then◌else◌, or_else,
}
use prometheus_exporter_fram.Assoc.{has}
use prometheus_exporter_fram.Text.{Text, codes}
use prometheus_exporter_fram.App.Names.{non_empty}
use prometheus_exporter_fram.Report.{Any, text, boolean}
use prometheus_exporter_fram.FeatureKit.{
  CollectorContext, Feature, FeatureSpec, new_feature, runtime_config,
}
use prometheus_exporter_fram.FeatureKit.Snapshot.{
  Snapshotter, SpecOptions, Framework, SnapshotFeatureSpec, SnapshotCollector,
  new_snapshot_feature_spec,
}
use prometheus_exporter_fram.FeatureKit.Extension.{
  Extension, ConfigState, feature_config_file, default_config_file, resolved_by, extension_prepare,
  extension_new_snapshotter, extension_default_snapshotter, extension_metrics_func,
  resolve_feature_config, new_config_state,
}

-- the state that `prepareConfigFunc` leaves, of what was resolved
abbrev pub state_with : {C E : Type 0} → ConfigState → C × Text × Bool × Option E → ConfigState
state_with st (config, file, loaded, none) = record {
  config_file = file;
  loaded = loaded;
  prepared = true;
}
state_with st (config, file, loaded, some e) = st

abbrev pub file_settings : Text → Bool → List Any
file_settings file loaded =
    text (codes "config_file") ∷ text file ∷ text (codes "config_file_loaded") ∷ boolean loaded ∷ []

abbrev pub own_settings :
    {C : Type 0} → Option (CollectorContext C → C → List Any) → CollectorContext C → List Any
own_settings none ctx = []
own_settings (some report) ctx = report ctx ctx.config

-- An extended feature, with the state of its config file.
pub record ExtendedFeature (C S D M L G E : Type 0) : Type 0 where
  pub feature : Feature C (Snapshotter S) (SnapshotCollector S D M L (List G)) (Framework L) E
  pub state : ConfigState

module _ {C S D M L G E : Type 0} (join_path : Text → Text → Text)
    (ext : Extension C S D M L G E) where
  -- the file that is shown
  abbrev pub shown_file : ConfigState → CollectorContext C → Text
  shown_file st ctx =
      if st.prepared
      then st.config_file
      else non_empty (feature_config_file ctx.config ext.config_file_func)
          (default_config_file join_path ctx.feature_name)

  -- `runtimeConfigFunc`
  unfoldable pub extension_runtime_config : ConfigState → CollectorContext C → List Any
  unfolding feature_config_file default_config_file
  extension_runtime_config st ctx =
      (if has ext.config_file_func then file_settings (shown_file st ctx) st.loaded else [])
      ++ own_settings ext.runtime_config_func ctx

  -- what `prepareConfig` leaves in the state
  unfoldable pub state_after : ConfigState → Option C → Text → C → ConfigState
  state_after st (some prepared) name config = st
  state_after st none name config =
      if not (has ext.config_file_func) && not (has ext.resolve_config_func)
      then st
      else state_with st (resolved_by join_path ext name config)

  -- `RuntimeConfig` of an extended feature: it prepares the configuration, then reports.
  unfoldable pub report :
      (E → Text) → ExtendedFeature C S D M L G E → ExtendedFeature C S D M L G E × List Any
  unfolding state_after extension_runtime_config runtime_config
  report error_text x =
      let f = x.feature in
      let st = state_after x.state f.prepared_config f.feature_name f.config in
      let (g, values) = runtime_config error_text (record f {
        functions = record f.functions { runtime_config_func = some (extension_runtime_config st) };
      }) in
      (record { feature = g; state = st }, values)

module _ {C S D M L G E : Type 0} (join_path : Text → Text → Text) (default_logger : L)
    (new_desc : Text → Text → List Text → D) (zero_config : C) (zero_snapshot : S) where
  -- `NewSnapshotExtensionFeatureSpec`
  unfoldable pub new_extension_spec :
      SpecOptions
      → Extension C S D M L G E
      → ConfigState
      → FeatureSpec C (Snapshotter S) (SnapshotCollector S D M L (List G)) (Framework L) E
  unfolding new_snapshot_feature_spec extension_prepare extension_new_snapshotter
      extension_default_snapshotter extension_metrics_func extension_runtime_config
  new_extension_spec options ext st =
      new_snapshot_feature_spec default_logger new_desc zero_snapshot (record {
        options = options;
        default_refresh_interval = ext.default_refresh_interval;
        sync_refresh_timeout = ext.sync_refresh_timeout;
        config = or_else ext.default_config_func zero_config;
        prepare_config_func = extension_prepare join_path ext;
        validate_config_func = ext.validate_config_func;
        new_snapshotter_func = extension_new_snapshotter ext;
        default_snapshotter = extension_default_snapshotter ext;
        metrics_func = extension_metrics_func new_desc ext;
        status_func = ext.status_func;
        error_log_func = ext.error_log_func;
        runtime_config_func = some (extension_runtime_config join_path ext st);
      })

  -- `NewSnapshotExtensionFeature`
  unfoldable pub new_extended_feature :
      SpecOptions → Extension C S D M L G E → ExtendedFeature C S D M L G E
  unfolding new_feature new_extension_spec
  new_extended_feature options ext = record {
    feature = new_feature (new_extension_spec options ext new_config_state);
    state = new_config_state;
  }
