-- ===== src/Metrics/TtlCacheMetrics.antt =====
-- exporter/featurekit/ttl_cache_metrics.go: the metrics of a `TTLCache`. A metric is what is handed
-- to `prometheus.MustNewConstMetric`, whose panic is `accepts`; `of_int` is the conversion to a float.
pub mod Shown
use prometheus_exporter_fram.Prelude.{
  ℕ, Bool, true, false, Option, none, some, List, [], ◌∷◌, ◌++◌, Result, ok, err, ◌>>=◌,
  if◌then◌else◌,
}
use prometheus_exporter_fram.Text.{Text, codes, is_empty, trim_space}
use prometheus_exporter_fram.Metrics.Descriptors.{
  MetricScope, feature, MetricSpec, MetricPanic, Descriptors, get_desc,
}
use prometheus_exporter_fram.Metrics.Emitted.{Emitted, emit, emit_with}
use prometheus_exporter_fram.TtlCache.{Stats}
use prometheus_exporter_fram.Metrics.Values.{Metric, gauge, counter}

abbrev pub metric_entries : Text
metric_entries = codes "cache_entries"

abbrev pub metric_hits : Text
metric_hits = codes "cache_hits_total"

abbrev pub metric_misses : Text
metric_misses = codes "cache_misses_total"

abbrev pub metric_sets : Text
metric_sets = codes "cache_sets_total"

abbrev pub metric_deletes : Text
metric_deletes = codes "cache_deletes_total"

abbrev pub metric_expired : Text
metric_expired = codes "cache_expired_total"

abbrev pub metric_clears : Text
metric_clears = codes "cache_clears_total"

pub record TtlCacheMetricDescs (D : Type 0) : Type 0 where
  pub entries_desc : D
  pub hits_desc : D
  pub misses_desc : D
  pub sets_desc : D
  pub deletes_desc : D
  pub expired_desc : D
  pub clears_desc : D

-- `TTLCacheMetricSpecs`
unfoldable pub ttl_cache_metric_specs : List Text → List MetricSpec
ttl_cache_metric_specs labels =
    let cache_labels = codes "cache" ∷ labels in
    record {
      id = metric_entries;
      scope = feature;
      name = codes "_cache_entries";
      help = codes "Current number of live entries in the feature cache.";
      labels = cache_labels;
    }
    ∷ record {
      id = metric_hits;
      scope = feature;
      name = codes "_cache_hits_total";
      help = codes "Cumulative total number of feature cache hits.";
      labels = cache_labels;
    }
    ∷ record {
      id = metric_misses;
      scope = feature;
      name = codes "_cache_misses_total";
      help = codes "Cumulative total number of feature cache misses.";
      labels = cache_labels;
    }
    ∷ record {
      id = metric_sets;
      scope = feature;
      name = codes "_cache_sets_total";
      help = codes "Cumulative total number of feature cache set operations.";
      labels = cache_labels;
    }
    ∷ record {
      id = metric_deletes;
      scope = feature;
      name = codes "_cache_deletes_total";
      help = codes "Cumulative total number of feature cache entries deleted explicitly.";
      labels = cache_labels;
    }
    ∷ record {
      id = metric_expired;
      scope = feature;
      name = codes "_cache_expired_total";
      help = codes "Cumulative total number of feature cache entries removed after expiry.";
      labels = cache_labels;
    }
    ∷ record {
      id = metric_clears;
      scope = feature;
      name = codes "_cache_clears_total";
      help = codes "Cumulative total number of feature cache clear operations.";
      labels = cache_labels;
    }
    ∷ []

module _ {D : Type 0} where
  -- `TTLCacheMetricDescsFor`
  unfoldable pub ttl_cache_metric_descs_for :
      Descriptors D → Result MetricPanic (TtlCacheMetricDescs D)
  ttl_cache_metric_descs_for descs = get_desc descs metric_entries >>= λ entries.
      get_desc descs metric_hits >>= λ hits. get_desc descs metric_misses >>= λ misses.
      get_desc descs metric_sets >>= λ sets. get_desc descs metric_deletes >>= λ deletes.
      get_desc descs metric_expired >>= λ expired. get_desc descs metric_clears >>= λ clears.
      ok (record {
        entries_desc = entries;
        hits_desc = hits;
        misses_desc = misses;
        sets_desc = sets;
        deletes_desc = deletes;
        expired_desc = expired;
        clears_desc = clears;
      })

module _ {D F : Type 0} where
  -- `CollectTTLCacheMetrics`
  unfoldable pub collect_ttl_cache_metrics :
      (ℕ → F) → (D → List Text → Bool) → Descriptors D → Text → Stats → List Text → Emitted D F
  unfolding ttl_cache_metric_descs_for emit
  collect_ttl_cache_metrics of_int accepts descriptors cache stats label_values =
      let values = cache ∷ label_values in
      emit_with
        (λ descs. emit accepts (
          record {
            desc = descs.entries_desc;
            type = gauge;
            value = of_int stats.entries;
            label_values = values;
          }
          ∷ record {
            desc = descs.hits_desc;
            type = counter;
            value = of_int stats.hits;
            label_values = values;
          }
          ∷ record {
            desc = descs.misses_desc;
            type = counter;
            value = of_int stats.misses;
            label_values = values;
          }
          ∷ record {
            desc = descs.sets_desc;
            type = counter;
            value = of_int stats.sets;
            label_values = values;
          }
          ∷ record {
            desc = descs.deletes_desc;
            type = counter;
            value = of_int stats.deletes;
            label_values = values;
          }
          ∷ record {
            desc = descs.expired_desc;
            type = counter;
            value = of_int stats.expired;
            label_values = values;
          }
          ∷ record {
            desc = descs.clears_desc;
            type = counter;
            value = of_int stats.clears;
            label_values = values;
          }
          ∷ []))
        (ttl_cache_metric_descs_for descriptors)
