-- ===== src/Metrics/LastKnownGoodMetrics/Shown.antt =====
-- What a feature that loads the specs of a source shows of the source's refreshes.
use prometheus_exporter_fram.Prelude.{
  Bool, true, false, none, some, length, nat_beq, ap, if◌then◌else◌, List, [], ◌∷◌, ◌++◌, ok, ◌>>=◌,
  ◌≡◌, refl, arith, map, Result-cases, inl, inr,
}
use prometheus_exporter_fram.Text.{Text, codes, is_empty, trim_space}
use prometheus_exporter_fram.LastKnownGood.{Result as Refresh}
use prometheus_exporter_fram.Metrics.Values.{Metric, gauge, ValueOps, bool_float, unix_timestamp}
use prometheus_exporter_fram.Metrics.Descriptors.{
  MetricSpec, load, metric_name, feature, invalid_const_metric,
}
use prometheus_exporter_fram.Metrics.Emitted.{emit, CountsValues, emit-CountsValues}
use prometheus_exporter_fram.Metrics.Descriptors.Loading.{
  is_ok, fresh, found, load_iff, load_lem, fresh-append, list_beq-append,
}
use prometheus_exporter_fram.Metrics.LastKnownGoodMetrics.{
  LastKnownGoodMetricIds, last_known_good_metric_ids_for, last_known_good_metric_specs,
  last_known_good_descs, collect_last_known_good_metrics,
}

abbrev suffixes : List Text
suffixes =
    codes "_last_success_timestamp_seconds"
    ∷ codes "_consecutive_failures"
    ∷ codes "_data_available"
    ∷ codes "_data_stale"
    ∷ []

abbrev source_specs : Text → List Text → List MetricSpec
source_specs source labels =
    record {
      id = source ++ codes "_last_success_timestamp_seconds";
      scope = feature;
      name = codes "_" ++ source ++ codes "_last_success_timestamp_seconds";
      help = codes "Unix timestamp of the last successful " ++ source ++ codes " refresh.";
      labels = labels;
    }
    ∷ record {
      id = source ++ codes "_consecutive_failures";
      scope = feature;
      name = codes "_" ++ source ++ codes "_consecutive_failures";
      help = codes "Current number of consecutive failed " ++ source ++ codes " refresh attempts.";
      labels = labels;
    }
    ∷ record {
      id = source ++ codes "_data_available";
      scope = feature;
      name = codes "_" ++ source ++ codes "_data_available";
      help = codes "Whether last-known-good " ++ source ++ codes " data is available.";
      labels = labels;
    }
    ∷ record {
      id = source ++ codes "_data_stale";
      scope = feature;
      name = codes "_" ++ source ++ codes "_data_stale";
      help =
          codes "Whether last-known-good "
          ++ source
          ++ codes " data is older than its stale threshold.";
      labels = labels;
    }
    ∷ []

abbrev source_ids : Text → LastKnownGoodMetricIds
source_ids source = record {
  last_success_timestamp_seconds = source ++ codes "_last_success_timestamp_seconds";
  consecutive_failures = source ++ codes "_consecutive_failures";
  data_available = source ++ codes "_data_available";
  data_stale = source ++ codes "_data_stale";
}

module _ {D : Type 0} (new_desc : Text → Text → List Text → D) (feature_name namespace_name : Text)
    (source : Text) (labels : List Text) where
  specs-load : is_ok (load new_desc feature_name namespace_name (source_specs source labels)) ≡ true
  unfolding fresh metric_name
  specs-load =
      rw
        (
          load_iff new_desc feature_name namespace_name (source_specs source labels),
          fresh-append source [] suffixes refl,
        )
        (fresh-append feature_name [] (map (λ y. codes "_" ++ source ++ y) suffixes)
          (fresh-append (codes "_" ++ source) [] suffixes refl))

module _ {D F : Type 0} (new_desc : Text → Text → List Text → D) (ops : ValueOps F)
    (feature_name namespace_name : Text) (source : Text) (labels : List Text) where
  -- a gauge of a source: the end of its name, its help text and its value
  abbrev pub shown_gauge : List Text → Text → Text → F → Metric D F
  shown_gauge label_values suffix help value = record {
    desc = new_desc (feature_name ++ (codes "_" ++ source ++ suffix)) help labels;
    type = gauge;
    value = value;
    label_values = label_values;
  }

  abbrev pub shown_gauges : {V : Type 0} → List Text → Refresh V → List (Metric D F)
  shown_gauges values r =
      shown_gauge values (codes "_last_success_timestamp_seconds")
        (codes "Unix timestamp of the last successful " ++ source ++ codes " refresh.")
        (unix_timestamp ops r.last_success)
      ∷ shown_gauge values (codes "_consecutive_failures")
          (codes "Current number of consecutive failed " ++ source ++ codes " refresh attempts.")
          (ops.of_int r.consecutive_failures)
      ∷ shown_gauge values (codes "_data_available")
          (codes "Whether last-known-good " ++ source ++ codes " data is available.")
          (bool_float ops r.available)
      ∷ shown_gauge values (codes "_data_stale")
          (codes "Whether last-known-good "
            ++ source
            ++ codes " data is older than its stale threshold.")
          (bool_float ops r.stale)
      ∷ []

  emit-shown :
      {V : Type 0} (accepts : D → List Text → Bool) (label_values : List Text) (r : Refresh V)
      → CountsValues accepts (length labels) (shown_gauges label_values r)
      → emit accepts (shown_gauges label_values r) ≡ (
          if nat_beq (length labels) (length label_values)
          then (shown_gauges label_values r, none)
          else ([], some invalid_const_metric))
  emit-shown accepts label_values r counts =
      emit-CountsValues accepts (length labels) (length label_values) _ _ counts
        (refl, (refl, (refl, (refl, tt))))

  -- A feature of any name that loads `LastKnownGoodMetricSpecs` of a source that is not blank loads
  -- without a panic. If the four descriptors accept as many label values as they have labels and no
  -- other number, then `CollectLastKnownGoodMetrics` of a result, with the IDs of that source and as
  -- many values as the specs were given labels, shows the four gauges of the source: the time of the
  -- last success, the consecutive failures, and whether data is available and whether it is stale.
  -- Given another number of values, it panics and shows nothing.
  pub collect_gauges-load :
      {V : Type 0} (accepts : D → List Text → Bool) (label_values : List Text) (r : Refresh V)
      → CountsValues accepts (length labels) (shown_gauges label_values r)
      → is_empty (trim_space source) ≡ false
      → (last_known_good_metric_ids_for source >>= λ ids.
          last_known_good_metric_specs source labels >>= λ specs.
          load new_desc feature_name namespace_name specs >>= λ d.
          ok (collect_last_known_good_metrics ops accepts d ids r label_values))
        ≡ ok (
            if nat_beq (length labels) (length label_values)
            then (shown_gauges label_values r, none)
            else ([], some invalid_const_metric))
  unfolding last_known_good_metric_ids_for last_known_good_metric_specs
      collect_last_known_good_metrics last_known_good_descs metric_name found
  collect_gauges-load accepts label_values r counts h =
      elim (Result-cases (load new_desc feature_name namespace_name (source_specs source labels))) [
        | inl (d, p) ↦
            let (_, get) =
              load_lem new_desc feature_name namespace_name (source_specs source labels) d p in
            rw (h, p)
              (rw
                (
                  get (source ++ codes "_last_success_timestamp_seconds"),
                  get (source ++ codes "_consecutive_failures"),
                  get (source ++ codes "_data_available"),
                  get (source ++ codes "_data_stale"),
                )
                (simp (list_beq-append source) (ap ok (emit-shown accepts label_values r counts))))
        | inr (e, p) ↦
            absurd (ground (arith, specs-load new_desc feature_name namespace_name source labels))
      ]
