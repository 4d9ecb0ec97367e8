-- ===== src/App/Handler/Answers.antt =====
-- exporter/internal/app/handler.go: what the handlers answer that are the framework's own. What
-- `promhttp` and `pprof` answer is left out. `P` are the landing pages of `exporter-toolkit`; its
-- `NewLandingPage`, `version.Info()` and the text of an error are parameters.
use prometheus_exporter_fram.Prelude.{ℕ, Bool, List, [], ◌∷◌, ◌++◌, Result, ok, err, if◌then◌else◌}
use prometheus_exporter_fram.Text.{Text, codes}
use prometheus_exporter_fram.App.TelemetryPath.{ParsedUrl}
use prometheus_exporter_fram.App.Handler.{
  HandlerOptions, Served, HandlerError, invalid_metrics_path, mux_panic, new_handler_checked,
  metrics, health, pprof_index, pprof_page, pprof_not_found, landing,
}

-- `web.LandingConfig`, the fields that are set; a link is an address and a text
pub record LandingConfig : Type 0 where
  pub name : Text
  pub description : Text
  pub version : Text
  pub profiling : Text
  pub links : List (Text × Text)

-- What a handler answers: a page, `http.Error` with a text and a status, or what a library answers.
pub data Answer (P : Type 0) : Type 0 where
  written : Text → Text → Answer P
  http_error : Text → ℕ → Answer P
  not_found : Answer P
  page : P → Answer P
  library : Served → Answer P

pub data Handler : Type 0 where
  mux : List (Text × Served) → Handler
  fails : HandlerError → Handler

abbrev pub internal_server_error : ℕ
internal_server_error = 500

module _ {R : Type 0} where
  -- the configuration in `landingPage`
  unfoldable pub landing_config : Text → HandlerOptions R → LandingConfig
  landing_config version_info opts = record {
    name = opts.name;
    description = opts.description;
    version = version_info;
    profiling = if opts.enable_pprof then codes "true" else codes "false";
    links = (opts.metrics_path, codes "Metrics") ∷ (codes "/healthz", codes "Health") ∷ [];
  }

  -- `landingPage`
  unfoldable pub landing_page :
      {P : Type 0} → (LandingConfig → Result Text P) → Text → HandlerOptions R → Answer P
  unfolding landing_config
  landing_page new_landing_page version_info opts =
      elim (new_landing_page (landing_config version_info opts)) [
        | ok p ↦ page p
        | err e ↦ http_error e internal_server_error
      ]

  -- the handlers that `newHandler` and `registerPprofHandlers` register
  unfoldable pub answer :
      {P : Type 0} → (LandingConfig → Result Text P) → Text → HandlerOptions R → Served → Answer P
  unfolding landing_page
  answer new_landing_page version_info opts metrics = library metrics
  answer new_landing_page version_info opts health =
      written (codes "text/plain; charset=utf-8") (codes "ok" ++ 10 ∷ [])
  answer new_landing_page version_info opts pprof_index = library pprof_index
  answer new_landing_page version_info opts (pprof_page name) = library (pprof_page name)
  answer new_landing_page version_info opts pprof_not_found = not_found
  answer new_landing_page version_info opts landing =
      landing_page new_landing_page version_info opts

  -- `NewHandler`; a panic of the mux goes through it.
  unfoldable pub new_handler_or_error :
      (Text → Result Text ParsedUrl)
      → (Text → Text → Bool)
      → R
      → HandlerOptions R
      → Result Text Handler
  unfolding new_handler_checked
  new_handler_or_error parse_request_uri conflicts new_registry opts =
      elim (new_handler_checked conflicts parse_request_uri new_registry opts) [
        | ok routes ↦ ok (mux routes)
        | err e ↦ elim e [
          | invalid_metrics_path p ↦ ok (fails (invalid_metrics_path p))
          | mux_panic pattern ↦ err pattern
        ]
      ]

-- the handler of `NewHandler` for an error
unfoldable pub failure_answer : {P : Type 0} → (HandlerError → Text) → HandlerError → Answer P
failure_answer error_text e = http_error (error_text e) internal_server_error
