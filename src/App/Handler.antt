-- ===== src/App/Handler.antt =====
-- exporter/internal/app/handler.go: the routes of the HTTP handler. `http.ServeMux` is a parameter:
-- `conflicts` says of a pattern and one registered before whether the mux panics. A handler is the
-- list of its routes.
pub mod Answers
pub mod Routes
use prometheus_exporter_fram.Prelude.{
  Bool, true, false, not, ◌&&◌, ◌||◌, Option, none, some, List, [], ◌∷◌, ◌++◌, Result, ok, err, any,
  if◌then◌else◌, ◌==◌, list_eq, nat_eq,
}
use prometheus_exporter_fram.Text.{Text, codes, is_empty}
use prometheus_exporter_fram.App.Names.{non_empty, default_description, default_telemetry_path}
use prometheus_exporter_fram.App.TelemetryPath.{ParsedUrl, PathError, validate_metrics_path}

-- `HandlerOptions`; the registry, `none` if it is `nil`, is of a type of its own.
pub record HandlerOptions (R : Type 0) : Type 0 where
  pub name : Text
  pub description : Text
  pub metrics_path : Text
  pub registry : Option R
  pub enable_pprof : Bool

abbrev pub default_landing_name : Text
default_landing_name = codes "exporter_framework"

-- `normalized`
unfoldable pub normalized_options : {R : Type 0} → R → HandlerOptions R → HandlerOptions R
normalized_options new_registry opts = record {
  name = non_empty opts.name default_landing_name;
  description = non_empty opts.description default_description;
  metrics_path = non_empty opts.metrics_path default_telemetry_path;
  registry = some (elim opts.registry [ none ↦ new_registry | some r ↦ r ]);
  enable_pprof = opts.enable_pprof;
}

-- what serves a pattern
pub data Served : Type 0 where
  metrics : Served
  health : Served
  pprof_index : Served
  pprof_page : Text → Served
  pprof_not_found : Served
  landing : Served

-- `registerPprofHandlers`
unfoldable pub pprof_routes : Bool → List (Text × Served)
pprof_routes true =
    (codes "/debug/pprof/", pprof_index)
    ∷ (codes "/debug/pprof/cmdline", pprof_page (codes "cmdline"))
    ∷ (codes "/debug/pprof/profile", pprof_page (codes "profile"))
    ∷ (codes "/debug/pprof/symbol", pprof_page (codes "symbol"))
    ∷ (codes "/debug/pprof/trace", pprof_page (codes "trace"))
    ∷ (codes "/debug/pprof/allocs", pprof_page (codes "allocs"))
    ∷ (codes "/debug/pprof/block", pprof_page (codes "block"))
    ∷ (codes "/debug/pprof/goroutine", pprof_page (codes "goroutine"))
    ∷ (codes "/debug/pprof/heap", pprof_page (codes "heap"))
    ∷ (codes "/debug/pprof/mutex", pprof_page (codes "mutex"))
    ∷ (codes "/debug/pprof/threadcreate", pprof_page (codes "threadcreate"))
    ∷ []
pprof_routes false = (codes "/debug/pprof/", pprof_not_found) ∷ []

-- the routes that `newHandler` registers, in order
unfoldable pub routes : Text → Bool → List (Text × Served)
routes metrics_path enable_pprof =
    (metrics_path, metrics) ∷ (codes "/healthz", health) ∷ pprof_routes enable_pprof
    ++ (if not (is_empty metrics_path) && not (metrics_path == codes "/")
        then (codes "/", landing) ∷ []
        else [])

pub data HandlerError : Type 0 where
  invalid_metrics_path : PathError → HandlerError
  mux_panic : Text → HandlerError

module _ (conflicts : Text → Text → Bool) where
  -- `mux.Handle` of routes, one after the other, on a mux with some routes
  unfoldable pub handle_all :
      List (Text × Served) → List (Text × Served) → Result HandlerError (List (Text × Served))
  handle_all mux [] = ok mux
  handle_all mux (route ∷ rest) =
      let after = handle_all (mux ++ route ∷ []) rest in
      if any (λ r. conflicts route.0 r.0) mux then err (mux_panic route.0) else after

  -- `newHandler`
  unfoldable pub new_handler :
      {R : Type 0} → HandlerOptions R → Result HandlerError (List (Text × Served))
  unfolding handle_all routes
  new_handler opts = handle_all [] (routes opts.metrics_path opts.enable_pprof)

  -- `NewHandlerChecked`
  unfoldable pub new_handler_checked :
      {R : Type 0}
      → (Text → Result Text ParsedUrl)
      → R
      → HandlerOptions R
      → Result HandlerError (List (Text × Served))
  unfolding new_handler normalized_options
  new_handler_checked parse_request_uri new_registry opts =
      let normal = normalized_options new_registry opts in
      elim (validate_metrics_path parse_request_uri normal.metrics_path) [
        | some e ↦ err (invalid_metrics_path e)
        | none ↦ new_handler normal
      ]
