-- ===== src/Metrics/FileScrapeMetrics/Named.antt =====
-- The descriptors that a feature loads for a file that is scraped.
use prometheus_exporter_fram.Prelude.{
  true, false, List, [], ◌∷◌, ◌++◌, ok, ◌>>=◌, ◌≡◌, refl, arith, map, Result-cases, inl, inr,
}
use prometheus_exporter_fram.Text.{Text, codes, is_empty, trim_space}
use prometheus_exporter_fram.Metrics.Descriptors.{MetricSpec, load, metric_name, feature}
use prometheus_exporter_fram.Metrics.Descriptors.Loading.{
  is_ok, fresh, found, load_iff, load_lem, fresh-append, list_beq-append,
}
use prometheus_exporter_fram.Metrics.FileScrapeMetrics.{
  file_scrape_metric_ids_for, file_scrape_metric_specs, file_scrape_descs,
}

abbrev suffixes : List Text
suffixes =
    codes "_mtime_seconds"
    ∷ codes "_up"
    ∷ codes "_valid"
    ∷ codes "_read_errors_total"
    ∷ codes "_parse_errors_total"
    ∷ codes "_scrape_duration_seconds"
    ∷ []

abbrev source_specs : Text → List Text → List MetricSpec
source_specs source labels =
    record {
      id = source ++ codes "_mtime_seconds";
      scope = feature;
      name = codes "_" ++ source ++ codes "_mtime_seconds";
      help = codes "Unix timestamp of the " ++ source ++ codes " source file modification time.";
      labels = labels;
    }
    ∷ record {
      id = source ++ codes "_up";
      scope = feature;
      name = codes "_" ++ source ++ codes "_up";
      help =
          codes "Whether the "
          ++ source
          ++ codes " source was readable during the last collection.";
      labels = labels;
    }
    ∷ record {
      id = source ++ codes "_valid";
      scope = feature;
      name = codes "_" ++ source ++ codes "_valid";
      help =
          codes "Whether the "
          ++ source
          ++ codes " source produced valid data during the last collection.";
      labels = labels;
    }
    ∷ record {
      id = source ++ codes "_read_errors_total";
      scope = feature;
      name = codes "_" ++ source ++ codes "_read_errors_total";
      help = codes "Cumulative total number of " ++ source ++ codes " source read errors.";
      labels = labels;
    }
    ∷ record {
      id = source ++ codes "_parse_errors_total";
      scope = feature;
      name = codes "_" ++ source ++ codes "_parse_errors_total";
      help =
          codes "Cumulative total number of "
          ++ source
          ++ codes " source parse or validity errors.";
      labels = labels;
    }
    ∷ record {
      id = source ++ codes "_scrape_duration_seconds";
      scope = feature;
      name = codes "_" ++ source ++ codes "_scrape_duration_seconds";
      help = codes "Duration in seconds of the last " ++ source ++ codes " source scrape.";
      labels = labels;
    }
    ∷ []

module _ {D : Type 0} (new_desc : Text → Text → List Text → D) (feature_name namespace_name : Text)
    (source : Text) (labels : List Text) where
  specs-load : is_ok (load new_desc feature_name namespace_name (source_specs source labels)) ≡ true
  unfolding fresh metric_name
  specs-load =
      rw
        (
          load_iff new_desc feature_name namespace_name (source_specs source labels),
          fresh-append source [] suffixes refl,
        )
        (fresh-append feature_name [] (map (λ y. codes "_" ++ source ++ y) suffixes)
          (fresh-append (codes "_" ++ source) [] suffixes refl))

  -- a descriptor of a source: the end of its name and its help text
  abbrev pub source_desc : Text → Text → D
  source_desc suffix help = new_desc (feature_name ++ (codes "_" ++ source ++ suffix)) help labels

  -- A feature of any name that loads `FileScrapeMetricSpecs` of a source that is not blank loads
  -- without a panic, and `Descs` of the IDs of that source is, field by field, the descriptor of the
  -- feature's name, the source and the field's suffix.
  pub file_scrape_descs-load :
      is_empty (trim_space source) ≡ false
      → (file_scrape_metric_ids_for source >>= λ ids.
          file_scrape_metric_specs source labels >>= λ specs.
          load new_desc feature_name namespace_name specs >>= λ d. file_scrape_descs ids d)
        ≡ ok (record {
          mtime_desc =
              source_desc (codes "_mtime_seconds") (
                codes "Unix timestamp of the "
                ++ source
                ++ codes " source file modification time.");
          up_desc = source_desc (codes "_up") (
              codes "Whether the "
              ++ source
              ++ codes " source was readable during the last collection.");
          valid_desc = source_desc (codes "_valid") (
              codes "Whether the "
              ++ source
              ++ codes " source produced valid data during the last collection.");
          read_errors_total_desc =
              source_desc
                (codes "_read_errors_total")
                (codes "Cumulative total number of " ++ source ++ codes " source read errors.");
          parse_errors_total_desc = source_desc (codes "_parse_errors_total") (
              codes "Cumulative total number of "
              ++ source
              ++ codes " source parse or validity errors.");
          scrape_duration_desc =
              source_desc
                (codes "_scrape_duration_seconds")
                (codes "Duration in seconds of the last " ++ source ++ codes " source scrape.");
        })
  unfolding file_scrape_metric_ids_for file_scrape_metric_specs file_scrape_descs metric_name found
  file_scrape_descs-load h =
      elim (Result-cases (load new_desc feature_name namespace_name (source_specs source labels))) [
        | inl (d, p) ↦
            let (_, get) =
              load_lem new_desc feature_name namespace_name (source_specs source labels) d p in
            rw (h, p)
              (rw
                (
                  get (source ++ codes "_mtime_seconds"),
                  get (source ++ codes "_up"),
                  get (source ++ codes "_valid"),
                  get (source ++ codes "_read_errors_total"),
                  get (source ++ codes "_parse_errors_total"),
                  get (source ++ codes "_scrape_duration_seconds"),
                )
                (simp (list_beq-append source) refl))
        | inr (e, p) ↦ absurd (ground (arith, specs-load))
      ]
