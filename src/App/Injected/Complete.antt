-- ===== src/App/Injected/Complete.antt =====
-- Exactly complete metadata are accepted, and an exporter that is configured from them starts with
-- them unchanged.
use prometheus_exporter_fram.Prelude.{
  true, false, Option, none, List, [], ◌∷◌, ok, ◌≡◌, ◌↔◌, refl, arith, Bool-cases, inl, inr, ap,
  ◌∙◌,
}
use prometheus_exporter_fram.Text.{Text, codes, is_empty, trim_space, contains_any}
use prometheus_exporter_fram.App.Names.{Config, validate_metric_namespace, IsName, normalized}
use prometheus_exporter_fram.App.Names.Valid.{validate_metric_namespace_iff}
use prometheus_exporter_fram.App.Injected.{
  ProjectMetadata, has_port, validate_listen_address, validate, config_from_injected_project,
}

abbrev pub IsGiven : Text → Type 0
IsGiven s = is_empty (trim_space s) ≡ false

trim_empty : (s : Text) → IsGiven s → is_empty s ≡ false
trim_empty [] h = unfold trim_space in ground arith
trim_empty (c ∷ s) h = refl

module _ (split_host_port : Text → Option (Text × Text)) where
  -- An address with a port and without blanks.
  pub record IsAddress (s : Text) : Type 0 where
    pub given : IsGiven s
    pub no_blank : contains_any s (32 ∷ 9 ∷ 13 ∷ 10 ∷ []) ≡ false
    pub port : has_port split_host_port (split_host_port s) ≡ true

  pub record IsComplete (m : ProjectMetadata) : Type 0 where
    pub exporter_name : IsGiven m.exporter_name
    pub exporter_description : IsGiven m.exporter_description
    pub feature_name : IsGiven m.feature_name
    pub metric_namespace : IsName m.metric_namespace
    pub default_listen_address : IsAddress m.default_listen_address

  address_of : (s : Text) → validate_listen_address split_host_port s ≡ none → IsAddress s
  unfolding validate_listen_address
  address_of s h = ground arith

  of_address : (s : Text) → IsAddress s → validate_listen_address split_host_port s ≡ none
  unfolding validate_listen_address
  of_address s a = rw (a.given, a.no_blank, a.port)

  IsComplete-of : (m : ProjectMetadata) → validate split_host_port m ≡ ok tt → IsComplete m
  unfolding validate
  IsComplete-of m h = record {
    exporter_name = ground arith;
    exporter_description = ground arith;
    feature_name = ground arith;
    metric_namespace = (validate_metric_namespace_iff m.metric_namespace).0 (ground arith);
    default_listen_address = record {
      given = ground arith;
      no_blank = ground arith;
      port = ground arith;
    };
  }

  name-IsGiven : (s : Text) → IsName s → IsGiven s
  name-IsGiven s n = elim (Bool-cases (is_empty (trim_space s))) [
    | inl p ↦ absurd (blank_refused s p ((validate_metric_namespace_iff s).1 n))
    | inr p ↦ p
  ]
    where
      blank_refused :
          (s : Text) → is_empty (trim_space s) ≡ true → validate_metric_namespace s ≡ none → ⊥
      blank_refused s p h = unfold validate_metric_namespace in ground arith

  of_complete : (m : ProjectMetadata) → IsComplete m → validate split_host_port m ≡ ok tt
  unfolding validate
  of_complete m c = rw (
    c.exporter_name,
    c.exporter_description,
    c.feature_name,
    name-IsGiven m.metric_namespace c.metric_namespace,
    (validate_metric_namespace_iff m.metric_namespace).1 c.metric_namespace,
    c.default_listen_address.given,
    c.default_listen_address.no_blank,
    c.default_listen_address.port,
  )

  -- `ProjectMetadata.Validate` accepts exactly the complete metadata: all five values given, the
  -- namespace a metric name, the address with a port and without blanks.
  pub validate_iff : (m : ProjectMetadata) → (validate split_host_port m ≡ ok tt) ↔ IsComplete m
  validate_iff m = (IsComplete-of m, of_complete m)

  module _ {Feature : Type 0} (v : ProjectMetadata) (features : List (Option Feature)) where
    -- the configuration before and after the defaults
    abbrev injected_config : Config Feature
    injected_config = record {
      name = v.exporter_name;
      namespace = v.metric_namespace;
      description = v.exporter_description;
      default_listen_address = v.default_listen_address;
      default_metrics_path = [];
      features = features;
    }

    abbrev injected_start : Config Feature
    injected_start = record injected_config { default_metrics_path = codes "/metrics" }

    config-IsComplete :
        (c : Config Feature)
        → config_from_injected_project split_host_port v features ≡ ok c
        → IsComplete v
    unfolding config_from_injected_project
    config-IsComplete c h = IsComplete-of v (ground arith)

    config_fields :
        (c : Config Feature)
        → config_from_injected_project split_host_port v features ≡ ok c
        → c ≡ injected_config
    unfolding config_from_injected_project
    config_fields c h = ground arith

    normalized_injected : IsComplete v → normalized injected_config ≡ injected_start
    unfolding normalized
    normalized_injected c = rw (
      trim_empty v.exporter_name c.exporter_name,
      trim_empty v.metric_namespace (name-IsGiven v.metric_namespace c.metric_namespace),
      trim_empty v.exporter_description c.exporter_description,
      trim_empty v.default_listen_address c.default_listen_address.given,
    )

  -- If the injected variables give a configuration, they are complete, and the defaults of the
  -- command line change none of it but the metrics path, which becomes `/metrics`; its listen
  -- address and its namespace pass the checks that the startup makes of them.
  pub config_from_injected_project_lem :
      {Feature : Type 0} (v : ProjectMetadata) (features : List (Option Feature))
      (c : Config Feature)
      → config_from_injected_project split_host_port v features ≡ ok c
      → IsComplete v
        × (normalized c ≡ record {
          name = v.exporter_name;
          namespace = v.metric_namespace;
          description = v.exporter_description;
          default_listen_address = v.default_listen_address;
          default_metrics_path = codes "/metrics";
          features = features;
        })
        × (validate_listen_address split_host_port (normalized c).default_listen_address ≡ none)
        × (validate_metric_namespace (normalized c).namespace ≡ none)
  config_from_injected_project_lem v features c h =
      let complete = config-IsComplete v features c h in
      let normal = normalized_injected v features complete in
      let start : normalized c ≡ injected_start v features =
        ap normalized (config_fields v features c h) ∙ normal in
      (
        complete,
        start,
        rw start (of_address v.default_listen_address complete.default_listen_address),
        rw start ((validate_metric_namespace_iff v.metric_namespace).1 complete.metric_namespace),
      )
