-- ===== src/FeatureKit/Snapshot/Interval.antt =====
-- The refresh interval of a snapshot feature's collector, from the flag to the collector.
use prometheus_exporter_fram.Prelude.{
  true, Option, none, some, List, [], ◌∷◌, ◌≡◌, refl, if◌then◌else◌, arith, inl, inr, Result, ok,
  err, ◌>>=◌, Result-cases,
}
use prometheus_exporter_fram.Clock.{Duration, is_positive}
use prometheus_exporter_fram.Text.{Text}
use prometheus_exporter_fram.Metrics.Values.{normalize_duration}
use prometheus_exporter_fram.Snapshot.Collector.{new_config, default_refresh_interval}
use prometheus_exporter_fram.Metrics.Descriptors.{MetricPanic}
use prometheus_exporter_fram.FeatureKit.{Feature, new_feature}
use prometheus_exporter_fram.FeatureKit.Snapshot.{
  Snapshotter, MetricsFunc, MetricsContext, SnapshotMetrics, new_snapshot_metrics,
  SnapshotCollector, SnapshotFeatureSpec, Framework, resolve, new_snapshot_collector,
  new_snapshot_metrics_collector, new_snapshot_feature_spec,
}

-- The first positive duration, or the default.
abbrev pub first_positive : List Duration → Duration → Duration
first_positive [] fallback = fallback
first_positive (d ∷ ds) fallback =
    let rest = first_positive ds fallback in if is_positive d then d else rest

-- the call of `newCollectorFunc` in `RegisterCollectors`, if there is one
abbrev pub build_collector :
    {C N K X E : Type 0} → Feature C N K X E → X → Option N → Result MetricPanic (Option K)
build_collector f framework snapshotter = elim f.functions.new_collector_func [
  | none ↦ ok none
  | some make ↦
      make f.feature_name framework snapshotter
        (normalize_duration f.refresh_interval f.default_refresh_interval)
]

-- A collector with this refresh interval, or the panic of the function that makes the metrics.
abbrev pub Refreshes :
    {S D M L G : Type 0}
    → MetricsFunc S D M L G
    → Duration
    → Result MetricPanic (Option (SnapshotCollector S D M L G))
    → Type 0
Refreshes {S} {D} {M} {L} {G} metrics_func interval (err p) =
    (make : MetricsContext S → Result MetricPanic (Option (SnapshotMetrics S D M L G)))
    × (ctx : MetricsContext S) × (metrics_func ≡ some make)
    × (make ctx ≡ err p)
Refreshes metrics_func interval (ok none) = ⊥
Refreshes metrics_func interval (ok (some k)) = k.config.refresh_interval ≡ interval

normalize-first :
    (d fallback : Duration)
    → is_positive fallback ≡ true
    → is_positive (normalize_duration d fallback) ≡ true
normalize-first d fallback h = ground arith

first_positive-positive :
    (ds : List Duration) (fallback : Duration)
    → is_positive fallback ≡ true
    → is_positive (first_positive ds fallback) ≡ true
first_positive-positive [] fallback h = h
first_positive-positive (d ∷ ds) fallback h =
    normalize-first d (first_positive ds fallback) (first_positive-positive ds fallback h)

collector-Refreshes :
    {S D M L G : Type 0} (ctx : MetricsContext S) (metrics_func : MetricsFunc S D M L G)
    (collector : SnapshotMetrics S D M L G → SnapshotCollector S D M L G) (interval : Duration)
    → ((m : SnapshotMetrics S D M L G) → (collector m).config.refresh_interval ≡ interval)
    → Refreshes metrics_func interval
        ((new_snapshot_metrics ctx metrics_func >>= λ m. ok (collector m)) >>= λ k. ok (some k))
unfolding new_snapshot_metrics
collector-Refreshes ctx none collector interval h = h _
collector-Refreshes ctx (some make) collector interval h = elim (Result-cases (make ctx)) [
  | inl (m, e) ↦ rw (e) (h _)
  | inr (p, e) ↦ rw (e) (make, ctx, refl, e)
]

module _ {C S D M L G E : Type 0} (default_logger : L) (new_desc : Text → Text → List Text → D)
    (zero_snapshot : S) where
  abbrev pub flagged :
      SnapshotFeatureSpec C S D M L G E
      → Duration
      → Feature C (Snapshotter S) (SnapshotCollector S D M L G) (Framework L) E
  flagged spec flag =
      record (new_feature (new_snapshot_feature_spec default_logger new_desc zero_snapshot spec)) {
        refresh_interval = flag;
      }

  -- The collector of a snapshot feature is made unless the feature's own function for the metrics
  -- panics. It refreshes at the interval of the flag, and where that is not positive at the first
  -- positive one of the default of the options, the default of the feature and the fallback of the
  -- options, or every 5 minutes; the interval is positive.
  pub build_collector-Refreshes :
      (spec : SnapshotFeatureSpec C S D M L G E) (flag : Duration) (framework : Framework L)
      (snapshotter : Option (Snapshotter S))
      → (let interval =
            first_positive
              (flag ∷ spec.options.default_refresh_interval ∷ spec.default_refresh_interval
                ∷ spec.options.fallback_refresh_interval ∷ [])
              default_refresh_interval in
          Refreshes spec.metrics_func interval
            (build_collector (flagged spec flag) framework snapshotter)
          × (is_positive interval ≡ true))
  unfolding new_feature new_snapshot_feature_spec new_snapshot_metrics_collector
      new_snapshot_collector resolve new_config
  build_collector-Refreshes spec flag framework snapshotter =
      let ds =
        flag ∷ spec.options.default_refresh_interval ∷ spec.default_refresh_interval
        ∷ spec.options.fallback_refresh_interval ∷ [] in
      (
        collector-Refreshes _ spec.metrics_func _ (first_positive ds default_refresh_interval)
            (λ m. ground arith),
        first_positive-positive ds default_refresh_interval refl,
      )
