-- ===== src/Metrics/Values.antt =====
-- exporter/internal/metric/value.go: the values of metrics. Floats are a type `F`.
use prometheus_exporter_fram.Prelude.{ℕ, Bool, if◌then◌else◌, List}
use prometheus_exporter_fram.Clock.{Time, Duration, is_zero, is_positive}
use prometheus_exporter_fram.Text.{Text}

-- The operations on floats; `unix_nano` is `float64(value.UnixNano()) / float64(time.Second)`.
pub record ValueOps (F : Type 0) : Type 0 where
  pub of_int : ℕ → F
  pub unix_nano : Time → F

pub data ValueType : Type 0 where
  gauge : ValueType
  counter : ValueType

-- The arguments of `prometheus.MustNewConstMetric`.
pub record Metric (D F : Type 0) : Type 0 where
  pub desc : D
  pub type : ValueType
  pub value : F
  pub label_values : List Text

-- `BoolFloat`
abbrev pub bool_float : {F : Type 0} → ValueOps F → Bool → F
bool_float ops value = if value then ops.of_int 1 else ops.of_int 0

-- `UnixTimestamp`
abbrev pub unix_timestamp : {F : Type 0} → ValueOps F → Time → F
unix_timestamp ops value = if is_zero value then ops.of_int 0 else ops.unix_nano value

-- `NormalizeDuration`
abbrev pub normalize_duration : Duration → Duration → Duration
normalize_duration value fallback = if is_positive value then value else fallback
