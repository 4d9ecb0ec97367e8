-- ===== src/Metrics/TtlCacheMetrics/Shown.antt =====
-- What a feature that loads the specs of the cache's metrics shows of a cache.
use prometheus_exporter_fram.Prelude.{
  ℕ, suc, Bool, true, none, some, length, nat_beq, ap, ◌∙◌, if◌then◌else◌, List, [], ◌∷◌, ◌++◌, ok,
  ◌>>=◌, ◌≡◌, refl, arith, Result-cases, inl, inr,
}
use prometheus_exporter_fram.Text.{Text, codes}
use prometheus_exporter_fram.TtlCache.{Stats}
use prometheus_exporter_fram.Metrics.Values.{Metric, ValueType, gauge, counter}
use prometheus_exporter_fram.Metrics.Descriptors.{load, metric_name, invalid_const_metric}
use prometheus_exporter_fram.Metrics.Emitted.{emit, CountsValues, emit-CountsValues}
use prometheus_exporter_fram.Metrics.Descriptors.Loading.{
  is_ok, fresh, found, load_iff, load_lem, fresh-append,
}
use prometheus_exporter_fram.Metrics.TtlCacheMetrics.{
  metric_entries, metric_hits, metric_misses, metric_sets, metric_deletes, metric_expired,
  metric_clears, ttl_cache_metric_specs, ttl_cache_metric_descs_for, collect_ttl_cache_metrics,
}

abbrev suffixes : List Text
suffixes =
    codes "_cache_entries"
    ∷ codes "_cache_hits_total"
    ∷ codes "_cache_misses_total"
    ∷ codes "_cache_sets_total"
    ∷ codes "_cache_deletes_total"
    ∷ codes "_cache_expired_total"
    ∷ codes "_cache_clears_total"
    ∷ []

module _ {D : Type 0} (new_desc : Text → Text → List Text → D) (feature_name namespace_name : Text)
    (labels : List Text) where
  specs-load :
      is_ok (load new_desc feature_name namespace_name (ttl_cache_metric_specs labels)) ≡ true
  unfolding fresh ttl_cache_metric_specs metric_name
  specs-load =
      rw (load_iff new_desc feature_name namespace_name (ttl_cache_metric_specs labels))
        (fresh-append feature_name [] suffixes refl)

module _ {D F : Type 0} (new_desc : Text → Text → List Text → D)
    (feature_name namespace_name : Text) (labels : List Text) where
  -- a metric of a cache: the end of its name, its help text, its type and its value
  abbrev pub shown_metric : Text → List Text → Text → Text → ValueType → F → Metric D F
  shown_metric cache label_values suffix help type value = record {
    desc = new_desc (feature_name ++ suffix) help (codes "cache" ∷ labels);
    type = type;
    value = value;
    label_values = cache ∷ label_values;
  }

  abbrev pub shown_metrics : (ℕ → F) → Text → List Text → Stats → List (Metric D F)
  shown_metrics of_int cache values stats =
      shown_metric cache values (codes "_cache_entries")
        (codes "Current number of live entries in the feature cache.") gauge (of_int stats.entries)
      ∷ shown_metric cache values (codes "_cache_hits_total")
          (codes "Cumulative total number of feature cache hits.") counter (of_int stats.hits)
      ∷ shown_metric cache values (codes "_cache_misses_total")
          (codes "Cumulative total number of feature cache misses.") counter (of_int stats.misses)
      ∷ shown_metric cache values (codes "_cache_sets_total")
          (codes "Cumulative total number of feature cache set operations.") counter
          (of_int stats.sets)
      ∷ shown_metric cache values (codes "_cache_deletes_total")
          (codes "Cumulative total number of feature cache entries deleted explicitly.") counter
          (of_int stats.deletes)
      ∷ shown_metric cache values (codes "_cache_expired_total")
          (codes "Cumulative total number of feature cache entries removed after expiry.") counter
          (of_int stats.expired)
      ∷ shown_metric cache values (codes "_cache_clears_total")
          (codes "Cumulative total number of feature cache clear operations.") counter
          (of_int stats.clears)
      ∷ []

  module _ (of_int : ℕ → F) (accepts : D → List Text → Bool) (cache : Text)
      (label_values : List Text) (stats : Stats) where
    emit-shown :
        CountsValues accepts (suc (length labels)) (shown_metrics of_int cache label_values stats)
        → emit accepts (shown_metrics of_int cache label_values stats) ≡ (
            if nat_beq (length labels) (length label_values)
            then (shown_metrics of_int cache label_values stats, none)
            else ([], some invalid_const_metric))
    emit-shown counts =
        let ms = shown_metrics of_int cache label_values stats in
        let m =
          shown_metric cache label_values (codes "_cache_entries")
            (codes "Current number of live entries in the feature cache.") gauge
            (of_int stats.entries) in
        let same : nat_beq (suc (length labels)) (suc (length label_values))
            ≡ nat_beq (length labels) (length label_values) =
          ground arith in
        let sent : emit accepts ms ≡ (
            if nat_beq (suc (length labels)) (suc (length label_values))
            then (ms, none)
            else ([], some invalid_const_metric)) =
          emit-CountsValues accepts (suc (length labels)) (suc (length label_values)) m _ counts
            (refl, (refl, (refl, (refl, (refl, (refl, (refl, tt))))))) in
        sent ∙ ap (λ b. if b then (ms, none) else ([], some invalid_const_metric)) same

    -- A feature of any name that loads `TTLCacheMetricSpecs` loads without a panic. If the seven
    -- descriptors accept as many label values as they have labels and no other number, then
    -- `CollectTTLCacheMetrics`, given as many values as the specs were given labels, shows each number
    -- of the statistics once, as the metric of the feature's name and the number's suffix: the live
    -- entries are a gauge and the rest counters, and the cache's name is the first label. Given
    -- another number of values, it panics and shows nothing.
    pub collect-load :
        CountsValues accepts (suc (length labels)) (shown_metrics of_int cache label_values stats)
        → (load new_desc feature_name namespace_name (ttl_cache_metric_specs labels) >>= λ d.
            ok (collect_ttl_cache_metrics of_int accepts d cache stats label_values))
          ≡ ok (
              if nat_beq (length labels) (length label_values)
              then (shown_metrics of_int cache label_values stats, none)
              else ([], some invalid_const_metric))
    unfolding collect_ttl_cache_metrics ttl_cache_metric_descs_for ttl_cache_metric_specs
        metric_name found
    collect-load counts =
        elim (Result-cases
          (load new_desc feature_name namespace_name (ttl_cache_metric_specs labels))) [
            | inl (d, p) ↦
                let (_, get) =
                  load_lem new_desc feature_name namespace_name (ttl_cache_metric_specs labels) d
                    p in
                rw
                  (
                    p,
                    get metric_entries,
                    get metric_hits,
                    get metric_misses,
                    get metric_sets,
                    get metric_deletes,
                    get metric_expired,
                    get metric_clears,
                  )
                  (ap ok (emit-shown counts))
            | inr (e, p) ↦
                absurd (ground (arith, specs-load new_desc feature_name namespace_name labels))
          ]
