-- ===== src/FeatureKit/Extended/Reported.antt =====
-- What `RuntimeConfigValue` reads of the report of an extended feature.
use prometheus_exporter_fram.Prelude.{
  Bool, false, Option, none, some, List, ◌≡◌, refl, Option-cases, inl, inr,
}
use prometheus_exporter_fram.Clock.{Duration}
use prometheus_exporter_fram.Text.{Text, codes}
use prometheus_exporter_fram.App.Names.{non_empty}
use prometheus_exporter_fram.Metrics.Values.{normalize_duration}
use prometheus_exporter_fram.Report.{text, boolean, duration, runtime_config_value}
use prometheus_exporter_fram.FeatureKit.{new_feature, runtime_config, prepare_config}
use prometheus_exporter_fram.FeatureKit.Snapshot.{SpecOptions, new_snapshot_feature_spec}
use prometheus_exporter_fram.FeatureKit.Extension.{
  Extension, feature_config_file, default_config_file, resolved_by, extension_prepare,
}
use prometheus_exporter_fram.FeatureKit.Extended.{
  ExtendedFeature, new_extended_feature, new_extension_spec, report, state_after,
  extension_runtime_config, state_with,
}

-- The feature after the flags are parsed: they set the configuration and the interval.
abbrev pub parsed :
    {C S D M L G E : Type 0}
    → ExtendedFeature C S D M L G E
    → C
    → Duration
    → ExtendedFeature C S D M L G E
parsed x config interval = record x {
  feature = record x.feature { config = config; refresh_interval = interval };
}

-- what is reported of the file: the one that was resolved, or without one that of the flags
abbrev pub reported_file : {C E : Type 0} → Text → C × Text × Bool × Option E → Text × Bool
reported_file fallback (config, file, loaded, none) = (file, loaded)
reported_file fallback (config, file, loaded, some e) = (fallback, false)

module _ {C S D M L G E : Type 0} (join_path : Text → Text → Text) (default_logger : L)
    (new_desc : Text → Text → List Text → D) (zero_config : C) (zero_snapshot : S)
    (error_text : E → Text) where
  -- The report of an extended feature with a config file, once its flags are parsed, has the
  -- interval of the flag or the default, and the path and the state of the file that was resolved;
  -- where resolving failed these are the path of the flags, trimmed, or the default one, and false.
  pub report-reads :
      (options : SpecOptions) (ext : Extension C S D M L G E) (file_of : C → Option Text)
      (config : C) (interval : Duration)
      → (let ext' = record ext { config_file_func = some file_of } in
          let x =
            new_extended_feature join_path default_logger new_desc zero_config zero_snapshot options
              ext' in
          let f = x.feature in
          let fallback =
            non_empty
              (feature_config_file config (some file_of))
              (default_config_file join_path f.feature_name) in
          let (file, loaded) =
            reported_file fallback (resolved_by join_path ext' f.feature_name config) in
          let values = (report join_path ext' error_text (parsed x config interval)).1 in
          (runtime_config_value values (codes "refresh_interval")
            ≡ some (duration (normalize_duration interval f.default_refresh_interval)))
          × (runtime_config_value values (codes "config_file") ≡ some (text file))
          × (runtime_config_value values (codes "config_file_loaded") ≡ some (boolean loaded)))
  unfolding runtime_config_value report new_extended_feature new_extension_spec extension_prepare
      extension_runtime_config state_after runtime_config prepare_config new_feature
      new_snapshot_feature_spec
  report-reads options ext file_of config interval =
      let name = non_empty options.feature_name (codes "exporter") in
      let r = resolved_by join_path (record ext { config_file_func = some file_of }) name config in
      elim (Option-cases r.3) [
        | inl h ↦ rw (h, state_with, reported_file) (refl, refl, refl)
        | inr (e, h) ↦ rw (h, state_with, reported_file) (refl, refl, refl)
      ]
