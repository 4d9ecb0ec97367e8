-- ===== src/FeatureKit.antt =====
-- exporter/featurekit/feature.go: `Feature`, the generic feature. `C` are configurations, `N`
-- snapshotters, `K` collectors, `E` errors and `R` registries. The flags and the functions of the
-- spec are the caller's: a function that may be `nil` is an option. `register_and_start` is
-- `RegisterAndStartCollectors`, of Registration.antt, at one collector.
pub mod Prepared
pub mod Registered
pub mod Snapshot
pub mod Extension
pub mod Extended
pub mod Framework
pub mod Contract
pub mod Flags
pub mod ConfigFile
use prometheus_exporter_fram.Prelude.{
  Bool, true, false, Option, none, some, List, [], ◌∷◌, ◌++◌, Result, ok, err, ℤ, pos,
  if◌then◌else◌, or_else, ◌>>=◌, Eq,
}
use prometheus_exporter_fram.Assoc.{has}
use prometheus_exporter_fram.Registration.{Registry, register_and_start_collectors}
use prometheus_exporter_fram.Clock.{Duration, is_positive}
use prometheus_exporter_fram.Text.{Text, codes, is_empty}
use prometheus_exporter_fram.App.Names.{non_empty}
use prometheus_exporter_fram.Snapshot.Collector.{default_refresh_interval}
use prometheus_exporter_fram.Metrics.Values.{normalize_duration}
use prometheus_exporter_fram.Metrics.Descriptors.{MetricPanic}
use prometheus_exporter_fram.Report.{Any, text, duration}

-- What `newSnapshotterFunc` is given.
pub record CollectorContext (C : Type 0) : Type 0 where
  pub feature_name : Text
  pub config : C
  pub refresh_interval : Duration

-- The functions of `FeatureSpec`; the framework's context is `X`.
pub record Functions (C N K X E : Type 0) : Type 0 where
  pub prepare_config_func : Option (Text → C → C × Option E)
  pub validate_config_func : Option (C → Option E)
  pub new_snapshotter_func : Option (X → CollectorContext C → Result E (Option N))
  pub new_collector_func : Option (Text → X → Option N → Duration → Result MetricPanic (Option K))
  pub runtime_config_func : Option (CollectorContext C → List Any)

pub record FeatureSpec (C N K X E : Type 0) : Type 0 where
  pub feature_name : Text
  pub default_refresh_interval : Duration
  pub fallback_refresh_interval : Duration
  pub config : C
  pub functions : Functions C N K X E

-- `preparedConfig` is read only when `configPrepared` is set: the two are one option.
pub record Feature (C N K X E : Type 0) : Type 0 where
  pub feature_name : Text
  pub default_refresh_interval : Duration
  pub refresh_interval : Duration
  pub config : C
  pub prepared_config : Option C
  pub functions : Functions C N K X E

-- the errors of `RegisterCollectors`, and a panic of the function that makes the collector
pub data FeatureError (E : Type 0) : Type 0 where
  own : E → FeatureError E
  factory_returned_nil : Text → FeatureError E
  register : Text → E → FeatureError E
  panics : MetricPanic → FeatureError E

-- `prepareConfig`, under its lock: an error comes with the configuration that it was made of.
abbrev pub run_prepare : {C E : Type 0} → Option (Text → C → C × Option E) → Text → C → C × Option E
run_prepare none name config = (config, none)
run_prepare (some f) name config = f name config

-- `validateConfigFunc`, if there is one
abbrev pub run_validate : {C E : Type 0} → Option (C → Option E) → C → Option E
run_validate none config = none
run_validate (some f) config = f config

-- the snapshotter, which may be `nil`, and is without a function for it
abbrev pub new_snapshotter :
    {C N X E : Type 0}
    → Option (X → CollectorContext C → Result E (Option N))
    → X
    → CollectorContext C
    → Result E (Option N)
new_snapshotter none x ctx = ok none
new_snapshotter (some make) x ctx = make x ctx

-- the settings of the feature, and the error
abbrev pub own_report :
    {C : Type 0} → Option (CollectorContext C → List Any) → CollectorContext C → List Any
own_report none ctx = []
own_report (some report) ctx = report ctx

abbrev pub error_report : {E : Type 0} → (E → Text) → Option E → List Any
error_report error_text none = []
error_report error_text (some e) = text (codes "config_error") ∷ text (error_text e) ∷ []

module _ {C N K X E : Type 0} where
  unfoldable pub new_feature : FeatureSpec C N K X E → Feature C N K X E
  new_feature spec =
      let fallback = normalize_duration spec.fallback_refresh_interval default_refresh_interval in
      let interval = normalize_duration spec.default_refresh_interval fallback in
      record {
        feature_name = non_empty spec.feature_name (codes "exporter");
        default_refresh_interval = interval;
        refresh_interval = interval;
        config = spec.config;
        prepared_config = none;
        functions = spec.functions;
      }

  abbrev pub keep_config : Feature C N K X E → C × Option E → Feature C N K X E × C × Option E
  keep_config f (config, none) = (record f { prepared_config = some config }, config, none)
  keep_config f (config, some e) = (f, config, some e)

  abbrev pub prepared : Feature C N K X E → Option C → Feature C N K X E × C × Option E
  prepared f (some config) = (f, config, none)
  prepared f none =
      keep_config f (run_prepare f.functions.prepare_config_func f.feature_name f.config)

  unfoldable pub prepare_config : Feature C N K X E → Feature C N K X E × C × Option E
  prepare_config f = prepared f f.prepared_config

  abbrev pub collector_context : Feature C N K X E → C → CollectorContext C
  collector_context f config = record {
    feature_name = f.feature_name;
    config = config;
    refresh_interval = normalize_duration f.refresh_interval f.default_refresh_interval;
  }

  -- `RuntimeConfig`: the interval, then the feature's own settings, then the error, if there is one.
  -- It prepares the configuration, and falls back to the one of the flags.
  unfoldable pub runtime_config : (E → Text) → Feature C N K X E → Feature C N K X E × List Any
  unfolding prepare_config
  runtime_config error_text f =
      let (g, config, error) = prepare_config f in
      let shown = if has error then f.config else config in
      let ctx = collector_context f shown in
      (
        g,
        text (codes "refresh_interval")
              ∷ duration ctx.refresh_interval
              ∷ own_report f.functions.runtime_config_func ctx
            ++ error_report error_text error,
      )

-- What the framework hands to a feature, with its context, which may be `nil`.
pub record FeatureContext (Ctx X : Type 0) : Type 0 where
  pub context : Option Ctx
  pub framework : X

-- the outcome of `RegisterAndStartCollectors`, with its error wrapped
abbrev pub wrap :
    {K E R Ctx : Type 0}
    → Text
    → R × List (K × Ctx) × Option E
    → R × List (K × Ctx) × Option (FeatureError E)
wrap name (r, started, none) = (r, started, none)
wrap name (r, started, some e) = (r, started, some (register name e))

module _ {K E R Ctx : Type 0} ⦃eq : Eq K⦄ (reg : Registry R K E) (background : Ctx) where
  abbrev pub add_collector :
      Text
      → Option Ctx
      → R
      → Result MetricPanic (Option K)
      → R × List (K × Ctx) × Option (FeatureError E)
  add_collector name ctx r (err p) = (r, [], some (panics p))
  add_collector name ctx r (ok none) = (r, [], some (factory_returned_nil name))
  add_collector name ctx r (ok (some k)) =
      wrap name (
        register_and_start_collectors reg background (some (or_else ctx background)) r
          (some k ∷ []))

module _ {C N K X E R Ctx : Type 0} ⦃eq : Eq K⦄ (reg : Registry R K E) (background : Ctx) where
  abbrev pub with_snapshotter :
      Feature C N K X E
      → FeatureContext Ctx X
      → R
      → (Text → X → Option N → Duration → Result MetricPanic (Option K))
      → Result E (Option N)
      → R × List (K × Ctx) × Option (FeatureError E)
  with_snapshotter f x r new_collector (err e) = (r, [], some (own e))
  with_snapshotter f x r new_collector (ok n) =
      add_collector reg background f.feature_name x.context r (
        new_collector f.feature_name x.framework n
          (normalize_duration f.refresh_interval f.default_refresh_interval))

  abbrev pub with_config :
      Feature C N K X E
      → FeatureContext Ctx X
      → R
      → C
      → Option (Text → X → Option N → Duration → Result MetricPanic (Option K))
      → Option E
      → R × List (K × Ctx) × Option (FeatureError E)
  with_config f x r config make (some e) = (r, [], some (own e))
  with_config f x r config none none = (r, [], none)
  with_config f x r config (some new_collector) none =
      with_snapshotter f x r new_collector
        (new_snapshotter f.functions.new_snapshotter_func x.framework (collector_context f config))

  -- `RegisterCollectors`: the feature, the registry, the collectors started and the error that are left
  unfoldable pub register_collectors :
      Feature C N K X E
      → FeatureContext Ctx X
      → R
      → Feature C N K X E × R × List (K × Ctx) × Option (FeatureError E)
  unfolding prepare_config
  register_collectors f x r =
      let (g, config, error) = prepare_config f in
      let (r', started, result) =
        with_config f x r config f.functions.new_collector_func (elim error [
          | none ↦ run_validate f.functions.validate_config_func config
          | some e ↦ some e
        ]) in
      (g, r', started, result)
