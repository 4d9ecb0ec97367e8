-- ===== src/App/TelemetryPath.antt =====
-- exporter/internal/app/telemetry_path.go: the check of the path under which metrics are served.
-- `url.ParseRequestURI` is a parameter.
pub mod Servable
use prometheus_exporter_fram.Prelude.{
  Bool, true, false, not, ◌||◌, ◌&&◌, Option, none, some, Result, ok, err, ◌==◌, list_eq, nat_eq,
  if◌then◌else◌, [], ◌∷◌,
}
use prometheus_exporter_fram.Text.{
  Text, codes, is_empty, trim_space, has_prefix, contains_any, contains,
}

-- the fields of `url.URL` that the check reads
pub record ParsedUrl : Type 0 where
  pub raw_query : Text
  pub fragment : Text

pub data PathError : Type 0 where
  empty surrounding_whitespace not_rooted whitespace query_or_fragment pattern double_slash :
      PathError
  invalid_url : Text → PathError
  reserved_health reserved_pprof : PathError

-- ` \t\r\n`
abbrev pub blanks : Text
blanks = 32 ∷ 9 ∷ 13 ∷ 10 ∷ []

abbrev pub health_path : Text
health_path = codes "/healthz"

abbrev pub pprof_path : Text
pprof_path = codes "/debug/pprof"

-- The path itself, or a path below it.
abbrev pub is_under : Text → Text → Text → Bool
is_under path base subtree = path == base || has_prefix path subtree

-- the checks after the path has been parsed
unfoldable pub check_reserved : Text → Option PathError
check_reserved path =
    if is_under path health_path (codes "/healthz/")
    then some reserved_health
    else if is_under path pprof_path (codes "/debug/pprof/")
    then some reserved_pprof
    else none

unfoldable pub check_parsed : Text → Result Text ParsedUrl → Option PathError
unfolding check_reserved
check_parsed path (err e) = some (invalid_url e)
check_parsed path (ok url) =
    if not (is_empty url.raw_query) || not (is_empty url.fragment)
    then some query_or_fragment
    else check_reserved path

module _ (parse_request_uri : Text → Result Text ParsedUrl) where
  -- `validateMetricsPath`; `none` is no error.
  unfoldable pub validate_metrics_path : Text → Option PathError
  unfolding check_parsed
  validate_metrics_path path =
      if is_empty path
      then some empty
      else if not (trim_space path == path)
      then some surrounding_whitespace
      else if not (has_prefix path (codes "/"))
      then some not_rooted
      else if contains_any path blanks
      then some whitespace
      else if contains_any path (codes "?#")
      then some query_or_fragment
      else if contains_any path (codes "{}")
      then some pattern
      else if contains path (codes "//")
      then some double_slash
      else check_parsed path (parse_request_uri path)
