-- ===== src/App/CommandLine.antt =====
-- exporter/internal/app/cli.go and server.go: the command line, and what is done before the server
-- serves. `parse` is kingpin's `Parse` of the framework's and the features' flags, `base_name` is
-- `filepath.Base`. `HydrateVersionMetadata` and the logging are left out.
pub mod Guards
use prometheus_exporter_fram.Prelude.{
  Bool, true, false, ◌||◌, Option, none, some, List, [], ◌∷◌, ◌++◌, Result, ok, err, ◌==◌, list_eq,
  nat_eq, if◌then◌else◌,
}
use prometheus_exporter_fram.Text.{Text, codes, is_empty, trim_space}
use prometheus_exporter_fram.Report.{Any, text, boolean}
use prometheus_exporter_fram.App.Names.{Config, normalized}
use prometheus_exporter_fram.App.TelemetryPath.{ParsedUrl, PathError, validate_metrics_path}
use prometheus_exporter_fram.App.Injected.{AddressError, validate_listen_address}
use prometheus_exporter_fram.App.Startup.{
  FeatureOps, Options, Registered, Running, RunError, normalized_options, new_registry_context,
  invalid_metrics_path, create_registry, invalid_listen_address, parse_flags,
  invalid_telemetry_path, RegistryError,
}
use prometheus_exporter_fram.App.Handler.{HandlerOptions, HandlerError, Served, new_handler_checked}

-- `ExecutableName`
unfoldable pub executable_name : (Text → Text) → List Text → Text → Text
executable_name base_name [] fallback = fallback
executable_name base_name (arg ∷ args) fallback =
    let name = base_name arg in
    if name == codes "." || is_empty (trim_space name) then fallback else name

-- What is parsed: the values of the flags, and the features with theirs.
pub record Parsed (F : Type 0) : Type 0 where
  pub metrics_path : Text
  pub enable_pprof : Bool
  pub features : List (Option F)

-- The libraries: `url.ParseRequestURI`, `net.SplitHostPort`, and kingpin's parsing, which is given the
-- defaults of the listen address and the metrics path, the features and the arguments.
pub record Libraries (F E : Type 0) : Type 0 where
  pub parse_request_uri : Text → Result Text ParsedUrl
  pub split_host_port : Text → Option (Text × Text)
  pub parse : Text → Text → List (Option F) → List Text → Result E (Parsed F)

-- `RuntimeConfig` of the features that are there, one after the other
module _ {F Ctx L R K E : Type 0} (ops : FeatureOps F Ctx L R K E) where
  unfoldable pub feature_reports : List (Option F) → List (Option F) × List Any
  feature_reports [] = ([], [])
  feature_reports (none ∷ rest) =
      let (features, values) = feature_reports rest in (none ∷ features, values)
  feature_reports (some f ∷ rest) =
      let (f', own) = ops.runtime_config f in
      let (features, values) = feature_reports rest in (some f' ∷ features, own ++ values)

  -- `runtimeConfigForOptions`
  unfoldable pub runtime_config_for_options : Options F → Options F × List Any
  unfolding feature_reports
  runtime_config_for_options opts =
      let (features, values) = feature_reports opts.features in
      (
        record opts { features = features },
        text (codes "metrics_path")
            ∷ text opts.metrics_path
            ∷ text (codes "pprof_enabled")
            ∷ boolean opts.enable_pprof
            ∷ values,
      )

module _ {F Ctx L R K E : Type 0} (ops : FeatureOps F Ctx L R K E) (with_feature : L → Text → L)
    (base : Text → R) (lib : Libraries F E) where
  -- the handler's options, once the registry is there
  abbrev pub after_registry :
      Options F
      → List (Option F)
      → Option (RegistryError E)
      → Option R
      → Result (RunError E) (HandlerOptions R × List (Option F))
  after_registry opts features (some e) registry = err (create_registry e)
  after_registry opts features none registry = ok (
    record {
      name = opts.name;
      description = opts.description;
      metrics_path = opts.metrics_path;
      registry = registry;
      enable_pprof = opts.enable_pprof;
    },
    features,
  )

  abbrev pub returned : Options F → Registered F Ctx R K E → Running F Ctx R K E
  returned opts r = record {
    started = r.started;
    outcome = after_registry opts r.features r.error r.registry;
  }

  -- what follows the check of the metrics path
  abbrev pub run_checked : Ctx → L → Options F → Option PathError → Running F Ctx R K E
  run_checked ctx logger opts (some e) = record {
    started = [];
    outcome = err (invalid_metrics_path opts.metrics_path e);
  }
  run_checked ctx logger opts none =
      returned opts
        (new_registry_context ops with_feature base ctx logger opts.namespace opts.features)

  -- `RunContext`
  unfoldable pub run_context : Ctx → L → Options F → Running F Ctx R K E
  unfolding normalized_options new_registry_context validate_metrics_path
  run_context ctx logger options =
      let opts = normalized_options options in
      run_checked ctx logger opts (validate_metrics_path lib.parse_request_uri opts.metrics_path)

  abbrev pub options_of : Config F → Parsed F → Options F
  options_of cfg p = record {
    name = cfg.name;
    namespace = cfg.namespace;
    description = cfg.description;
    metrics_path = p.metrics_path;
    enable_pprof = p.enable_pprof;
    features = p.features;
  }

  abbrev pub path_checked : Options F → Option PathError → Result (RunError E) (Options F)
  path_checked opts (some e) = err (invalid_telemetry_path opts.metrics_path e)
  path_checked opts none = ok opts

  abbrev pub with_parsed : Config F → Result E (Parsed F) → Result (RunError E) (Options F)
  with_parsed cfg (err e) = err (parse_flags e)
  with_parsed cfg (ok p) =
      path_checked (options_of cfg p) (validate_metrics_path lib.parse_request_uri p.metrics_path)

  abbrev pub address_checked :
      Config F → List Text → Option AddressError → Result (RunError E) (Options F)
  address_checked cfg args (some e) = err (invalid_listen_address cfg.default_listen_address e)
  address_checked cfg args none =
      with_parsed cfg
        (lib.parse cfg.default_listen_address cfg.default_metrics_path cfg.features args)

  -- `parseCLIConfig`, without the report
  unfoldable pub parse_cli_config : Config F → List Text → Result (RunError E) (Options F)
  unfolding normalized validate_listen_address validate_metrics_path
  parse_cli_config config args =
      let cfg = normalized config in
      address_checked cfg args
        (validate_listen_address lib.split_host_port cfg.default_listen_address)

  abbrev pub run_parsed : Ctx → L → Result (RunError E) (Options F) → Running F Ctx R K E × List Any
  run_parsed ctx logger (err e) = (record { started = []; outcome = err e }, [])
  run_parsed ctx logger (ok opts) =
      let (reported, values) = runtime_config_for_options ops opts in
      (run_context ctx logger reported, values)

  -- `RunCLIContext`: what runs, and the runtime configuration that is logged before
  unfoldable pub run_cli_context : Ctx → L → Config F → List Text → Running F Ctx R K E × List Any
  unfolding run_context parse_cli_config runtime_config_for_options
  run_cli_context ctx logger config args = run_parsed ctx logger (parse_cli_config config args)

-- `NewServer` and `NewServerChecked`: the options of the handler, and the handler of the server
unfoldable pub server_options : {F R : Type 0} → Options F → Option R → HandlerOptions R
unfolding normalized_options
server_options options registry =
    let opts = normalized_options options in
    record {
      name = opts.name;
      description = opts.description;
      metrics_path = opts.metrics_path;
      registry = registry;
      enable_pprof = opts.enable_pprof;
    }

unfoldable pub new_server_checked :
    {F R : Type 0}
    → (Text → Text → Bool)
    → (Text → Result Text ParsedUrl)
    → R
    → Options F
    → Option R
    → Result HandlerError (List (Text × Served))
unfolding new_handler_checked server_options
new_server_checked conflicts parse_request_uri new_registry options registry =
    new_handler_checked conflicts parse_request_uri new_registry (server_options options registry)
