-- ===== src/Metrics/LastKnownGoodMetrics.antt =====
-- exporter/featurekit/last_known_good_metrics.go: the metrics of one key of a `LastKnownGood`.
pub mod Shown
use prometheus_exporter_fram.Prelude.{
  ℕ, Bool, true, false, Option, none, some, List, [], ◌∷◌, ◌++◌, Result, ok, err, ◌>>=◌,
  if◌then◌else◌,
}
use prometheus_exporter_fram.Text.{Text, codes, is_empty, trim_space}
use prometheus_exporter_fram.Metrics.Descriptors.{
  MetricScope, feature, MetricSpec, MetricPanic, source_required, Descriptors, get_desc,
}
use prometheus_exporter_fram.Metrics.Emitted.{Emitted, emit, emit_with}
use prometheus_exporter_fram.LastKnownGood.{Result as Refresh}
use prometheus_exporter_fram.Metrics.Values.{Metric, gauge, ValueOps, bool_float, unix_timestamp}

pub record LastKnownGoodMetricIds : Type 0 where
  pub last_success_timestamp_seconds : Text
  pub consecutive_failures : Text
  pub data_available : Text
  pub data_stale : Text

pub record LastKnownGoodMetricDescs (D : Type 0) : Type 0 where
  pub last_success_timestamp_desc : D
  pub consecutive_failures_desc : D
  pub data_available_desc : D
  pub data_stale_desc : D

-- `LastKnownGoodMetricIDsFor`
unfoldable pub last_known_good_metric_ids_for : Text → Result MetricPanic LastKnownGoodMetricIds
last_known_good_metric_ids_for source =
    if is_empty (trim_space source)
    then err source_required
    else ok (record {
      last_success_timestamp_seconds = source ++ codes "_last_success_timestamp_seconds";
      consecutive_failures = source ++ codes "_consecutive_failures";
      data_available = source ++ codes "_data_available";
      data_stale = source ++ codes "_data_stale";
    })

-- `LastKnownGoodMetricSpecs`
unfoldable pub last_known_good_metric_specs :
    Text → List Text → Result MetricPanic (List MetricSpec)
unfolding last_known_good_metric_ids_for
last_known_good_metric_specs source labels = last_known_good_metric_ids_for source >>= λ ids. ok (
    record {
      id = ids.last_success_timestamp_seconds;
      scope = feature;
      name = codes "_" ++ source ++ codes "_last_success_timestamp_seconds";
      help = codes "Unix timestamp of the last successful " ++ source ++ codes " refresh.";
      labels = labels;
    }
    ∷ record {
      id = ids.consecutive_failures;
      scope = feature;
      name = codes "_" ++ source ++ codes "_consecutive_failures";
      help = codes "Current number of consecutive failed " ++ source ++ codes " refresh attempts.";
      labels = labels;
    }
    ∷ record {
      id = ids.data_available;
      scope = feature;
      name = codes "_" ++ source ++ codes "_data_available";
      help = codes "Whether last-known-good " ++ source ++ codes " data is available.";
      labels = labels;
    }
    ∷ record {
      id = ids.data_stale;
      scope = feature;
      name = codes "_" ++ source ++ codes "_data_stale";
      help =
          codes "Whether last-known-good "
          ++ source
          ++ codes " data is older than its stale threshold.";
      labels = labels;
    }
    ∷ [])

module _ {D : Type 0} where
  -- `Descs`
  unfoldable pub last_known_good_descs :
      LastKnownGoodMetricIds → Descriptors D → Result MetricPanic (LastKnownGoodMetricDescs D)
  last_known_good_descs ids descs =
      get_desc descs ids.last_success_timestamp_seconds >>= λ last_success_timestamp.
      get_desc descs ids.consecutive_failures >>= λ consecutive_failures.
      get_desc descs ids.data_available >>= λ data_available.
      get_desc descs ids.data_stale >>= λ data_stale. ok (record {
        last_success_timestamp_desc = last_success_timestamp;
        consecutive_failures_desc = consecutive_failures;
        data_available_desc = data_available;
        data_stale_desc = data_stale;
      })

module _ {D F V : Type 0} where
  -- `CollectLastKnownGoodMetrics`
  unfoldable pub collect_last_known_good_metrics :
      ValueOps F
      → (D → List Text → Bool)
      → Descriptors D
      → LastKnownGoodMetricIds
      → Refresh V
      → List Text
      → Emitted D F
  unfolding last_known_good_descs emit
  collect_last_known_good_metrics ops accepts descriptors ids r label_values =
      emit_with
        (λ descs. emit accepts (
          record {
            desc = descs.last_success_timestamp_desc;
            type = gauge;
            value = unix_timestamp ops r.last_success;
            label_values = label_values;
          }
          ∷ record {
            desc = descs.consecutive_failures_desc;
            type = gauge;
            value = ops.of_int r.consecutive_failures;
            label_values = label_values;
          }
          ∷ record {
            desc = descs.data_available_desc;
            type = gauge;
            value = bool_float ops r.available;
            label_values = label_values;
          }
          ∷ record {
            desc = descs.data_stale_desc;
            type = gauge;
            value = bool_float ops r.stale;
            label_values = label_values;
          }
          ∷ []))
        (last_known_good_descs ids descriptors)
