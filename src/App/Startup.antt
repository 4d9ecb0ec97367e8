-- ===== src/App/Startup.antt =====
-- exporter/internal/app/registry.go, server.go and cli.go: from the command line to the handler. The
-- features are of a type `F`, with the methods of `FeatureOps`; a method may change its feature. `Ctx`
-- are contexts, `L` loggers, `R` registries, `K` collectors and `E` errors.
pub mod Held
use prometheus_exporter_fram.Prelude.{
  Bool, Option, none, some, List, [], ◌∷◌, ◌++◌, Result, ok, err, if◌then◌else◌, or_else,
}
use prometheus_exporter_fram.Text.{Text, codes, is_empty}
use prometheus_exporter_fram.Report.{Any, text, boolean}
use prometheus_exporter_fram.App.Names.{
  Config, NamespaceError, non_empty, normalized, default_exporter_name, default_description,
  default_telemetry_path, validate_metric_namespace,
}
use prometheus_exporter_fram.App.TelemetryPath.{ParsedUrl, PathError, validate_metrics_path}
use prometheus_exporter_fram.App.Injected.{AddressError, validate_listen_address}
use prometheus_exporter_fram.App.Handler.{HandlerOptions}

-- `FeatureContext`
pub record FeatureContext (Ctx L : Type 0) : Type 0 where
  pub context : Ctx
  pub logger : L
  pub exporter_name : Text
  pub namespace : Text

-- The methods of a feature. One that has no name has an empty one, and one that is no
-- `RuntimeConfigReporter` reports nothing. `RegisterCollectors` leaves the feature, the registry,
-- the collectors that it started and its error.
pub record FeatureOps (F Ctx L R K E : Type 0) : Type 0 where
  pub feature_name : F → Text
  pub type_name : F → Text
  pub register_collectors : F → FeatureContext Ctx L → R → F × R × List (K × Ctx) × Option E
  pub runtime_config : F → F × List Any

-- The errors of `NewRegistryContext`.
pub data RegistryError (E : Type 0) : Type 0 where
  invalid_namespace : Text → NamespaceError → RegistryError E
  register_feature : Text → E → RegistryError E

-- What the registration leaves: the features, the registry, once there is one, what was started, and
-- the error.
pub record Registered (F Ctx R K E : Type 0) : Type 0 where
  pub features : List (Option F)
  pub registry : Option R
  pub started : List (K × Ctx)
  pub error : Option (RegistryError E)

module _ {F Ctx L R K E : Type 0} (ops : FeatureOps F Ctx L R K E)
    (with_feature : L → Text → L) where
  -- `featureLogName`
  abbrev pub feature_log_name : F → Text
  feature_log_name f = non_empty (ops.feature_name f) (ops.type_name f)

  -- the context of a feature, with its own logger if it has a name
  abbrev pub feature_context : Ctx → L → Text → F → FeatureContext Ctx L
  feature_context ctx logger namespace f = record {
    context = ctx;
    logger =
        if is_empty (ops.feature_name f) then logger else with_feature logger (ops.feature_name f);
    exporter_name = namespace;
    namespace = namespace;
  }

  abbrev pub after_feature :
      F
      → List (Option F)
      → F × R × List (K × Ctx) × Option E
      → (R → Registered F Ctx R K E)
      → Registered F Ctx R K E
  after_feature f rest (f', r, started, some e) next = record {
    features = some f' ∷ rest;
    registry = some r;
    started = started;
    error = some (register_feature (feature_log_name f) e);
  }
  after_feature f rest (f', r, started, none) next =
      let later = next r in
      record later { features = some f' ∷ later.features; started = started ++ later.started }

  -- the loop of `NewRegistryContext`
  unfoldable pub register_features : Ctx → L → Text → List (Option F) → R → Registered F Ctx R K E
  register_features ctx logger namespace [] r = record {
    features = [];
    registry = some r;
    started = [];
    error = none;
  }
  register_features ctx logger namespace (none ∷ rest) r =
      let later = register_features ctx logger namespace rest r in
      record later { features = none ∷ later.features }
  register_features ctx logger namespace (some f ∷ rest) r =
      after_feature f rest (ops.register_collectors f (feature_context ctx logger namespace f) r)
        (register_features ctx logger namespace rest)

  -- what follows the check of the namespace
  abbrev pub register_checked :
      (Text → R) → Ctx → L → Text → List (Option F) → Option NamespaceError → Registered F Ctx R K E
  register_checked base ctx logger name features (some e) = record {
    features = features;
    registry = none;
    started = [];
    error = some (invalid_namespace name e);
  }
  register_checked base ctx logger name features none =
      register_features ctx logger name features (base name)

  -- `NewRegistryContext`; `base` is the pedantic registry with the collectors of the version, the
  -- process and the runtime, which fail for no namespace.
  unfoldable pub new_registry_context :
      (Text → R) → Ctx → L → Text → List (Option F) → Registered F Ctx R K E
  unfolding register_features validate_metric_namespace
  new_registry_context base ctx logger namespace features =
      let name = non_empty namespace default_exporter_name in
      register_checked base ctx logger name features (validate_metric_namespace name)

-- `Options`, without the flags of the toolkit
pub record Options (F : Type 0) : Type 0 where
  pub name : Text
  pub namespace : Text
  pub description : Text
  pub metrics_path : Text
  pub enable_pprof : Bool
  pub features : List (Option F)

-- `Options.normalized`
unfoldable pub normalized_options : {F : Type 0} → Options F → Options F
normalized_options o =
    let name = non_empty o.name default_exporter_name in
    record o {
      name = name;
      namespace = non_empty o.namespace name;
      description = non_empty o.description default_description;
      metrics_path = non_empty o.metrics_path default_telemetry_path;
    }

pub data RunError (E : Type 0) : Type 0 where
  invalid_metrics_path : Text → PathError → RunError E
  create_registry : RegistryError E → RunError E
  invalid_listen_address : Text → AddressError → RunError E
  parse_flags : E → RunError E
  invalid_telemetry_path : Text → PathError → RunError E

-- What `RunContext` does before it serves: the collectors that it starts, and then the error with
-- which it returns, or the options of the handler with which it serves, and the features.
pub record Running (F Ctx R K E : Type 0) : Type 0 where
  pub started : List (K × Ctx)
  pub outcome : Result (RunError E) (HandlerOptions R × List (Option F))
