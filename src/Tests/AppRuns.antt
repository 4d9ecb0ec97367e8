-- ===== src/Tests/AppRuns.antt =====
-- Names, paths, versions and injected variables of an exporter called `demo`.
use prometheus_exporter_fram.Prelude.{
  Bool, true, err, ℕ, ◌≡◌, ◌↔◌, refl, [], ◌∷◌, some, none, ok, Option, Result, if◌then◌else◌,
  nat_beq, ◌==◌, list_eq, nat_eq,
}
use prometheus_exporter_fram.Text.{Text, codes, trim_space, is_space, contains_any}
use prometheus_exporter_fram.App.Names.{Config, normalized, validate_metric_namespace, IsName}
use prometheus_exporter_fram.App.Names.Valid.{validate_metric_namespace_iff}
use prometheus_exporter_fram.App.TelemetryPath.{ParsedUrl, validate_metrics_path}
use prometheus_exporter_fram.App.TelemetryPath.Servable.{IsServable, validate_metrics_path_iff}
use prometheus_exporter_fram.App.Version.{Metadata, resolve_version_metadata}
use prometheus_exporter_fram.App.Version.Resolved.{
  IsResolved, is_absent, is_blank, resolve_version_metadata_lem,
}
use prometheus_exporter_fram.App.Injected.{
  ProjectMetadata, validate, validate_listen_address, config_from_injected_project,
}
use prometheus_exporter_fram.App.Injected.Complete.{
  IsComplete, validate_iff, config_from_injected_project_lem,
}
use prometheus_exporter_fram.App.Handler.{
  HandlerOptions, normalized_options, routes, invalid_metrics_path, new_handler_checked,
}
use prometheus_exporter_fram.App.Handler.Routes.{is_plain, new_handler_checked_lem}

validate_metric_namespace_iff_example :
    (validate_metric_namespace (codes "demo_1") ≡ none) ↔ IsName (codes "demo_1")
validate_metric_namespace_iff_example = validate_metric_namespace_iff (codes "demo_1")

-- a parser that takes every text as a path alone
abbrev parse_path : Text → Result Text ParsedUrl
parse_path s = ok (record { raw_query = []; fragment = [] })

validate_metrics_path_iff_example :
    (validate_metrics_path parse_path (codes "/metrics") ≡ none)
    ↔ IsServable parse_path (codes "/metrics")
validate_metrics_path_iff_example = validate_metrics_path_iff parse_path (codes "/metrics")

-- the text before the first colon, and the rest
abbrev cut_port : Text → Option (Text × Text)
cut_port [] = none
cut_port (c ∷ s) =
    let rest = cut_port s in
    if nat_beq c 58
    then some ([], s)
    else elim rest [ none ↦ none | some (host, port) ↦ some (c ∷ host, port) ]

abbrev demo : ProjectMetadata
demo = record {
  exporter_name = codes "demo";
  exporter_description = codes "Demo exporter";
  feature_name = codes "sample";
  metric_namespace = codes "demo";
  default_listen_address = codes ":9900";
}

validate_iff_example : (validate cut_port demo ≡ ok tt) ↔ IsComplete cut_port demo
validate_iff_example = validate_iff cut_port demo

abbrev demo_config : Config ℕ
demo_config = record {
  name = codes "demo";
  namespace = codes "demo";
  description = codes "Demo exporter";
  default_listen_address = codes ":9900";
  default_metrics_path = [];
  features = some 1 ∷ [];
}

config_from_injected_project_lem_example :
    IsComplete cut_port demo
    × (normalized demo_config ≡ record {
      name = demo.exporter_name;
      namespace = demo.metric_namespace;
      description = demo.exporter_description;
      default_listen_address = demo.default_listen_address;
      default_metrics_path = codes "/metrics";
      features = some 1 ∷ [];
    })
    × (validate_listen_address cut_port (normalized demo_config).default_listen_address ≡ none)
    × (validate_metric_namespace (normalized demo_config).namespace ≡ none)
unfolding config_from_injected_project trim_space is_space validate_metric_namespace contains_any
config_from_injected_project_lem_example =
    config_from_injected_project_lem cut_port demo (some 1 ∷ []) demo_config refl

abbrev linked : Metadata
linked = record { version = codes " 1.2 "; branch = []; revision = [] }

abbrev built : Metadata
built = record { version = codes "(devel)"; branch = codes "main"; revision = codes "unknown" }

abbrev resolved : Metadata
resolved = resolve_version_metadata linked (codes "abc") built

resolve_version_metadata_lem_example :
    IsResolved resolved
    × (resolved.version ≡ (
        if is_blank linked.version
        then (if is_absent (codes "(devel)") built.version
            then codes "dev"
            else trim_space built.version)
        else trim_space linked.version))
    × (resolved.branch ≡ (
        if is_blank linked.branch
        then (if is_blank built.branch then codes "dev" else trim_space built.branch)
        else trim_space linked.branch))
    × (resolved.revision ≡ (
        if is_blank linked.revision
        then (if is_absent (codes "unknown") built.revision
            then (if is_absent (codes "unknown") (codes "abc")
                then codes "dev"
                else trim_space (codes "abc"))
            else trim_space built.revision)
        else trim_space linked.revision))
    × (resolve_version_metadata resolved (codes "def") linked ≡ resolved)
resolve_version_metadata_lem_example =
    resolve_version_metadata_lem linked built linked (codes "abc") (codes "def")

abbrev equal_patterns : Text → Text → Bool
equal_patterns a b = a == b

equal_patterns-plain :
    (a b : Text) → is_plain a ≡ true → is_plain b ≡ true → equal_patterns a b ≡ (a == b)
equal_patterns-plain a b h k = refl

abbrev handler_options : HandlerOptions ℕ
handler_options = record {
  name = codes "demo";
  description = [];
  metrics_path = codes "/stats";
  registry = none;
  enable_pprof = true;
}

new_handler_checked_lem_example :
    new_handler_checked equal_patterns parse_path 0 handler_options
    ≡ elim (validate_metrics_path parse_path (normalized_options 0 handler_options).metrics_path) [
      | some e ↦ err (invalid_metrics_path e)
      | none ↦ ok (routes (normalized_options 0 handler_options).metrics_path true)
    ]
unfolding contains_any normalized_options
new_handler_checked_lem_example =
    new_handler_checked_lem equal_patterns equal_patterns-plain parse_path 0 handler_options refl
