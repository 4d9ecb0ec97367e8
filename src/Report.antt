-- ===== src/Report.antt =====
-- The runtime configuration that features report: `[]any` with keys and values in turn, and
-- exporter/exportertest/exportertest.go: `RuntimeConfigValue`, which reads it.
pub mod Reading
use prometheus_exporter_fram.Prelude.{
  ℕ, Bool, true, false, Option, none, some, List, [], ◌∷◌, ◌==◌, list_eq, nat_eq, if◌then◌else◌,
}
use prometheus_exporter_fram.Clock.{Duration}
use prometheus_exporter_fram.Text.{Text}

-- `any`, for the types that the framework reports; a value of another type is known by a number.
pub data Any : Type 0 where
  text : Text → Any
  boolean : Bool → Any
  duration : Duration → Any
  opaque : ℕ → Any

-- the comparison of a value with a key, which is a `string`
abbrev pub is_key : Any → Text → Bool
is_key (text t) key = t == key
is_key (boolean b) key = false
is_key (duration d) key = false
is_key (opaque n) key = false

-- `RuntimeConfigValue`; without the key it ends the test.
unfoldable pub runtime_config_value : List Any → Text → Option Any
runtime_config_value [] key = none
runtime_config_value (k ∷ []) key = none
runtime_config_value (k ∷ v ∷ config) key =
    let rest = runtime_config_value config key in if is_key k key then some v else rest
