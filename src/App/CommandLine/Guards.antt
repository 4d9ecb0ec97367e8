-- ===== src/App/CommandLine/Guards.antt =====
-- What must hold before a collector is started: the order of the checks from the command line to the
-- registry.
use prometheus_exporter_fram.Prelude.{
  false, Option, none, some, List, [], Result, ok, err, ◌≡◌, ◌⊎◌,
}
use prometheus_exporter_fram.Text.{Text, is_empty}
use prometheus_exporter_fram.App.Names.{validate_metric_namespace, NamespaceError}
use prometheus_exporter_fram.App.TelemetryPath.{validate_metrics_path}
use prometheus_exporter_fram.App.Handler.{HandlerOptions}
use prometheus_exporter_fram.App.Startup.{
  FeatureOps, Options, Registered, Running, RunError, create_registry, invalid_namespace,
  register_feature,
}
use prometheus_exporter_fram.App.CommandLine.{Libraries, run_checked}

module _ {F Ctx L R K E : Type 0} (ops : FeatureOps F Ctx L R K E) (with_feature : L → Text → L)
    (base : Text → R) (lib : Libraries F E) where
  -- Served with these options, or a feature's own error.
  abbrev pub Registers : Options F → Running F Ctx R K E → Type 0
  Registers opts x =
      ((h : HandlerOptions R × List (Option F)) × (x.outcome ≡ ok h)
        × (h.0.metrics_path ≡ opts.metrics_path)
        × (h.0.name ≡ opts.name))
      ⊎ ((name : Text) × (e : E) × (x.outcome ≡ err (create_registry (register_feature name e))))

  abbrev pub Checked : Options F → Option NamespaceError → Running F Ctx R K E → Type 0
  Checked opts (some n) x =
      (x.started ≡ []) × (x.outcome ≡ err (create_registry (invalid_namespace opts.namespace n)))
  Checked opts none x = Registers opts x

  abbrev pub Guarded : Result (RunError E) (Options F) → Running F Ctx R K E → Type 0
  Guarded (err e) x = (x.started ≡ []) × (x.outcome ≡ err e)
  Guarded (ok opts) x =
      (validate_metrics_path lib.parse_request_uri opts.metrics_path ≡ none)
      × Checked opts (validate_metric_namespace opts.namespace) x

  -- Options that the defaults do not change.
  abbrev Filled : Options F → Type 0
  Filled opts =
      (is_empty opts.name ≡ false)
      × (is_empty opts.namespace ≡ false)
      × (is_empty opts.description ≡ false)
      × (is_empty opts.metrics_path ≡ false)

  -- the features' own errors
  FeatureErrors : Registered F Ctx R K E → Type 0
  FeatureErrors r =
      (r.error ≡ none) ⊎ ((name : Text) × (e : E) × (r.error ≡ some (register_feature name e)))

  -- a run, of its normalized options
  abbrev run_normal : Ctx → L → Options F → Running F Ctx R K E
  run_normal ctx logger o =
      run_checked ops with_feature base lib ctx logger o
        (validate_metrics_path lib.parse_request_uri o.metrics_path)

  -- Options that have passed the command line's checks.
  abbrev Accepted : Options F → Type 0
  Accepted opts =
      Filled opts × (validate_metrics_path lib.parse_request_uri opts.metrics_path ≡ none)
