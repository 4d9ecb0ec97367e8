-- ===== src/App/Injected.antt =====
-- exporter/internal/app/injected.go and exporter/injected.go: the metadata that the linker injects,
-- its validation, and what the exporter derives from it. The injected variables are an argument,
-- and so is `net.SplitHostPort`. A panic of a `Require…` function is its error.
pub mod Complete
use prometheus_exporter_fram.Prelude.{
  Bool, true, false, not, ◌||◌, Option, none, some, List, [], ◌∷◌, ◌++◌, Result, ok, err, ◌>>=◌,
  ◌>>◌, if◌then◌else◌,
}
use prometheus_exporter_fram.Text.{Text, codes, is_empty, trim_space, contains_any}
use prometheus_exporter_fram.App.Names.{Config, NamespaceError, validate_metric_namespace}

pub data AddressError : Type 0 where
  empty whitespace not_host_port : AddressError

pub data MetadataError : Type 0 where
  missing : Text → MetadataError
  invalid_namespace : Text → NamespaceError → MetadataError
  address : AddressError → MetadataError
  -- the wrapping of `InjectedProjectMetadataErr`
  invalid : MetadataError → MetadataError

pub record ProjectMetadata : Type 0 where
  pub exporter_name : Text
  pub exporter_description : Text
  pub feature_name : Text
  pub metric_namespace : Text
  pub default_listen_address : Text

pub record MetricInfo : Type 0 where
  pub build_info : Text
  pub collection_duration_seconds : Text
  pub last_collection_success : Text
  pub last_collection_timestamp_seconds : Text
  pub last_successful_collection_timestamp_seconds : Text

-- `SmokeSpec` of exporter/internal/feature/feature.go
pub record SmokeSpec : Type 0 where
  pub server_args : List Text
  pub want_metrics : List Text
  pub reject_metrics : List Text

pub record SmokeInfo : Type 0 where
  pub forbidden_usage_names : List Text
  pub renamed_executable : Text
  pub server_args : List Text
  pub want_metrics : List Text
  pub reject_metrics : List Text

pub record ExporterInfo : Type 0 where
  pub name : Text
  pub description : Text
  pub feature_name : Text
  pub metric_namespace : Text
  pub default_listen_address : Text
  pub metrics : MetricInfo
  pub smoke : SmokeInfo

-- `InjectedDefault`
unfoldable pub injected_default : Text → Text → Result MetadataError Text
injected_default name value = if is_empty (trim_space value) then err (missing name) else ok value

-- `StandardMetricInfo`
unfoldable pub standard_metric_info : Text → MetricInfo
standard_metric_info namespace = record {
  build_info = namespace ++ codes "_build_info";
  collection_duration_seconds = namespace ++ codes "_collection_duration_seconds";
  last_collection_success = namespace ++ codes "_last_collection_success";
  last_collection_timestamp_seconds = namespace ++ codes "_last_collection_timestamp_seconds";
  last_successful_collection_timestamp_seconds =
      namespace ++ codes "_last_successful_collection_timestamp_seconds";
}

-- `appendSmokeSpec`
unfoldable pub append_smoke_spec : SmokeInfo → SmokeSpec → SmokeInfo
append_smoke_spec info spec = record info {
  server_args = info.server_args ++ spec.server_args;
  want_metrics = info.want_metrics ++ spec.want_metrics;
  reject_metrics = info.reject_metrics ++ spec.reject_metrics;
}

-- The loop over the features; a feature that provides no smoke spec is `none`.
unfoldable pub append_smoke_specs : SmokeInfo → List (Option SmokeSpec) → SmokeInfo
unfolding append_smoke_spec
append_smoke_specs info [] = info
append_smoke_specs info (none ∷ features) = append_smoke_specs info features
append_smoke_specs info (some spec ∷ features) =
    append_smoke_specs (append_smoke_spec info spec) features

abbrev pub check_namespace : Text → Option NamespaceError → Result MetadataError (Unit {0})
check_namespace value none = ok tt
check_namespace value (some e) = err (invalid_namespace value e)

abbrev pub check_address : Option AddressError → Result MetadataError (Unit {0})
check_address none = ok tt
check_address (some e) = err (address e)

module _ (split_host_port : Text → Option (Text × Text)) where
  abbrev pub has_port : Option (Text × Text) → Bool
  has_port none = false
  has_port (some (host, port)) = not (is_empty port)

  -- `ValidateListenAddress`
  unfoldable pub validate_listen_address : Text → Option AddressError
  validate_listen_address value =
      if is_empty (trim_space value)
      then some empty
      else if contains_any value (32 ∷ 9 ∷ 13 ∷ 10 ∷ [])
      then some whitespace
      else if has_port (split_host_port value)
      then none
      else some not_host_port

  -- `ProjectMetadata.Validate`
  unfoldable pub validate : ProjectMetadata → Result MetadataError (Unit {0})
  unfolding injected_default validate_listen_address
  validate m = do
    injected_default (codes "ProjectMetadata.ExporterName") m.exporter_name
    injected_default (codes "ProjectMetadata.ExporterDescription") m.exporter_description
    injected_default (codes "ProjectMetadata.FeatureName") m.feature_name
    injected_default (codes "ProjectMetadata.MetricNamespace") m.metric_namespace
    check_namespace m.metric_namespace (validate_metric_namespace m.metric_namespace)
    injected_default (codes "ProjectMetadata.DefaultListenAddress") m.default_listen_address
    check_address (validate_listen_address m.default_listen_address)

  -- the smoke info before the features are asked
  abbrev pub own_smoke : ProjectMetadata → SmokeInfo
  own_smoke m = record {
    forbidden_usage_names = m.metric_namespace ∷ [];
    renamed_executable = codes "renamed-" ++ (m.feature_name ++ codes "-exporter");
    server_args = [];
    want_metrics =
        ((standard_metric_info m.metric_namespace).last_collection_success ++ codes " 1") ∷ [];
    reject_metrics =
        ((standard_metric_info m.metric_namespace).last_collection_success ++ codes " 0") ∷ [];
  }

  -- `ExporterInfoFromProjectMetadataErr`
  unfoldable pub exporter_info :
      ProjectMetadata → List (Option SmokeSpec) → Result MetadataError ExporterInfo
  unfolding validate append_smoke_specs standard_metric_info
  exporter_info m features = do
    validate m
    ok (record {
      name = m.exporter_name;
      description = m.exporter_description;
      feature_name = m.feature_name;
      metric_namespace = m.metric_namespace;
      default_listen_address = m.default_listen_address;
      metrics = standard_metric_info m.metric_namespace;
      smoke = append_smoke_specs (own_smoke m) features;
    })

  abbrev pub wrap_invalid : {A : Type 0} → Result MetadataError A → Result MetadataError A
  wrap_invalid (ok a) = ok a
  wrap_invalid (err e) = err (invalid e)

  -- `InjectedProjectMetadataErr`, on the injected variables
  unfoldable pub injected_project_metadata : ProjectMetadata → Result MetadataError ProjectMetadata
  unfolding validate injected_default
  injected_project_metadata v = do
    exporter_name ← injected_default (codes "injectedExporterName") v.exporter_name
    description ← injected_default (codes "injectedExporterDescription") v.exporter_description
    feature_name ← injected_default (codes "injectedFeatureName") v.feature_name
    metric_namespace ← injected_default (codes "injectedMetricNamespace") v.metric_namespace
    listen_address ← injected_default (codes "injectedListenAddress") v.default_listen_address
    let metadata : ProjectMetadata = record {
      exporter_name = exporter_name;
      exporter_description = description;
      feature_name = feature_name;
      metric_namespace = metric_namespace;
      default_listen_address = listen_address;
    }
    wrap_invalid (validate metadata)
    ok metadata

  -- `ConfigFromInjectedProjectErr`
  unfoldable pub config_from_injected_project :
      {Feature : Type 0}
      → ProjectMetadata
      → List (Option Feature)
      → Result MetadataError (Config Feature)
  unfolding injected_project_metadata
  config_from_injected_project v features = do
    metadata ← injected_project_metadata v
    ok (record {
      name = metadata.exporter_name;
      namespace = metadata.metric_namespace;
      description = metadata.exporter_description;
      default_listen_address = metadata.default_listen_address;
      default_metrics_path = [];
      features = features;
    })

  -- `ExporterInfoFromInjectedProjectErr`
  unfoldable pub exporter_info_from_injected_project :
      ProjectMetadata → List (Option SmokeSpec) → Result MetadataError ExporterInfo
  unfolding injected_project_metadata exporter_info
  exporter_info_from_injected_project v features = do
    metadata ← injected_project_metadata v
    exporter_info metadata features
