-- ===== src/App/Names.antt =====
-- exporter/internal/app/config.go: the configuration of an exporter and the metric namespaces.
pub mod Valid
use prometheus_exporter_fram.Prelude.{
  ℕ, Bool, true, false, not, ◌&&◌, ◌||◌, Option, none, some, List, [], ◌∷◌, ◌≡◌, ◌≢◌, ◌↔◌, refl, Eq,
  ◌==◌, ==_iff, list_eq, nat_eq, nat_beq, all, arith, any, if◌then◌else◌, Bool-cases, inl, inr,
}
use prometheus_exporter_fram.Text.{
  Text, codes, is_empty, is_space, between, trim_space, trim_space_visible,
}

-- `Config`; the features are of a type of their own.
pub record Config (Feature : Type 0) : Type 0 where
  pub name : Text
  pub namespace : Text
  pub description : Text
  pub default_listen_address : Text
  pub default_metrics_path : Text
  pub features : List (Option Feature)

abbrev pub default_exporter_name : Text
default_exporter_name = codes "exporter_framework"

abbrev pub default_description : Text
default_description = codes "Prometheus exporter framework"

abbrev pub default_listen_address : Text
default_listen_address = codes ":9900"

abbrev pub default_telemetry_path : Text
default_telemetry_path = codes "/metrics"

abbrev pub non_empty : Text → Text → Text
non_empty value fallback = if is_empty value then fallback else value

-- `normalized`; the namespace defaults to the name, which has its default by then.
unfoldable pub normalized : {Feature : Type 0} → Config Feature → Config Feature
normalized c =
    let name = non_empty c.name default_exporter_name in
    record c {
      name = name;
      namespace = non_empty c.namespace name;
      description = non_empty c.description default_description;
      default_listen_address = non_empty c.default_listen_address default_listen_address;
      default_metrics_path = non_empty c.default_metrics_path default_telemetry_path;
    }

pub data NamespaceError : Type 0 where
  empty whitespace invalid : NamespaceError

-- the `switch` of the loop, at the first character and at the others
unfoldable pub may_start : ℕ → Bool
may_start r = between b'a' b'z' r || between b'A' b'Z' r || nat_beq r b'_'

unfoldable pub may_follow : ℕ → Bool
unfolding may_start
may_follow r = may_start r || between b'0' b'9' r

unfoldable pub scan : Bool → Text → Option NamespaceError
unfolding may_start may_follow
scan first [] = none
scan first (r ∷ rest) =
    let error = scan false rest in
    if (if first then may_start r else may_follow r) then error else some invalid

-- `validateMetricNamespace`
unfoldable pub validate_metric_namespace : Text → Option NamespaceError
unfolding scan
validate_metric_namespace value =
    if is_empty (trim_space value)
    then some empty
    else if not (trim_space value == value)
    then some whitespace
    else scan true value

-- A letter or underscore, then letters, digits and underscores.
pub data IsName : Text → Type 0 where
  name : (r : ℕ) (rest : Text) → may_start r ≡ true → all may_follow rest ≡ true → IsName (r ∷ rest)
