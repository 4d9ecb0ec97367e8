-- ===== src/FeatureKit/Extended/Described.antt =====
-- What the collector of an extended feature with metric specs describes.
use prometheus_exporter_fram.Prelude.{
  Option, none, some, List, [], ◌∷◌, ◌≡◌, ◌⊎◌, refl, Result, ok, err, map, Result-cases, inl, inr,
  ap,
}
use prometheus_exporter_fram.Text.{Text, codes}
use prometheus_exporter_fram.App.Names.{non_empty}
use prometheus_exporter_fram.Metrics.Descriptors.{MetricSpec, MetricPanic, load, desc_of}
use prometheus_exporter_fram.Metrics.Descriptors.Loading.{load_lem}
use prometheus_exporter_fram.FeatureKit.{new_feature}
use prometheus_exporter_fram.FeatureKit.Snapshot.{
  Snapshotter, SpecOptions, Framework, SnapshotCollector, new_snapshot_feature_spec,
  new_snapshot_metrics_collector, new_snapshot_collector, new_snapshot_metrics, resolve,
}
use prometheus_exporter_fram.FeatureKit.Snapshot.Interval.{build_collector}
use prometheus_exporter_fram.FeatureKit.Extension.{
  Extension, extension_metrics_func, new_feature_metrics, feature_metrics,
}
use prometheus_exporter_fram.FeatureKit.Extended.{new_extended_feature, new_extension_spec}

non_empty-twice :
    (a : Text)
    → non_empty (non_empty a (codes "exporter")) (codes "exporter") ≡ non_empty a (codes "exporter")
non_empty-twice [] = refl
non_empty-twice (c ∷ a) = refl

-- A collector that describes what the specs say, or the panic of their loading.
abbrev pub DescribesSpecs :
    {S D M L G : Type 0}
    → (Text → Text → List Text → D)
    → Text
    → Text
    → List MetricSpec
    → Result MetricPanic (Option (SnapshotCollector S D M L (List G)))
    → Type 0
DescribesSpecs {S} {D} {M} {L} {G} new_desc name namespace specs built =
    ((k : SnapshotCollector S D M L (List G)) × (built ≡ ok (some k))
      × (k.describe_func ≡ some (ok (map (desc_of new_desc name namespace) specs))))
    ⊎ ((p : MetricPanic) × (load new_desc name namespace specs ≡ err p) × (built ≡ err p))

module _ {C S D M L G E : Type 0} (join_path : Text → Text → Text) (default_logger : L)
    (new_desc : Text → Text → List Text → D) (zero_config : C) (zero_snapshot : S) where
  -- The collector of an extended feature with metric specs, and no function of its own for the metrics,
  -- describes the descriptor of each spec, in order and without a panic; it is made unless the loading
  -- of the specs panics.
  pub build_collector-DescribesSpecs :
      (options : SpecOptions) (ext : Extension C S D M L G E) (s : MetricSpec)
      (specs : List MetricSpec) (framework : Framework L) (snapshotter : Option (Snapshotter S))
      → (let ext' = record ext { metrics_func = none; metric_specs = s ∷ specs } in
          let f =
            (new_extended_feature join_path default_logger new_desc zero_config zero_snapshot
              options ext').feature in
          DescribesSpecs new_desc f.feature_name
            (non_empty framework.namespace (codes "exporter"))
            (s ∷ specs)
            (build_collector f framework snapshotter))
  unfolding new_extended_feature new_extension_spec new_feature new_snapshot_feature_spec
      new_snapshot_metrics_collector new_snapshot_metrics new_snapshot_collector resolve
      extension_metrics_func new_feature_metrics feature_metrics
  build_collector-DescribesSpecs options ext s specs framework snapshotter =
      let name = non_empty options.feature_name (codes "exporter") in
      let namespace = non_empty framework.namespace (codes "exporter") in
      rw (non_empty-twice options.feature_name)
        (elim (Result-cases (load new_desc name namespace (s ∷ specs))) [
          | inl (d, h) ↦
              rw (h) (inl (_, refl, ap some (load_lem new_desc name namespace (s ∷ specs) d h).0))
          | inr (p, h) ↦ rw (h) (inr (p, refl, refl))
        ])
