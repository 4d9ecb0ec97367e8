-- ===== src/Metrics/FileScrapeMetrics.antt =====
-- exporter/featurekit/file_scrape_metrics.go: the metrics of a file that is scraped.
pub mod Named
use prometheus_exporter_fram.Prelude.{
  ℕ, Bool, true, false, Option, none, some, List, [], ◌∷◌, ◌++◌, Result, ok, err, ◌>>=◌,
  if◌then◌else◌,
}
use prometheus_exporter_fram.Text.{Text, codes, is_empty, trim_space}
use prometheus_exporter_fram.Metrics.Descriptors.{
  MetricScope, feature, MetricSpec, MetricPanic, source_required, Descriptors, get_desc,
}

pub record FileScrapeMetricIds : Type 0 where
  pub mtime_seconds : Text
  pub up : Text
  pub valid : Text
  pub read_errors_total : Text
  pub parse_errors_total : Text
  pub scrape_duration_seconds : Text

pub record FileScrapeMetricDescs (D : Type 0) : Type 0 where
  pub mtime_desc : D
  pub up_desc : D
  pub valid_desc : D
  pub read_errors_total_desc : D
  pub parse_errors_total_desc : D
  pub scrape_duration_desc : D

-- `FileScrapeMetricIDsFor`
unfoldable pub file_scrape_metric_ids_for : Text → Result MetricPanic FileScrapeMetricIds
file_scrape_metric_ids_for source =
    if is_empty (trim_space source)
    then err source_required
    else ok (record {
      mtime_seconds = source ++ codes "_mtime_seconds";
      up = source ++ codes "_up";
      valid = source ++ codes "_valid";
      read_errors_total = source ++ codes "_read_errors_total";
      parse_errors_total = source ++ codes "_parse_errors_total";
      scrape_duration_seconds = source ++ codes "_scrape_duration_seconds";
    })

-- `FileScrapeMetricSpecs`
unfoldable pub file_scrape_metric_specs : Text → List Text → Result MetricPanic (List MetricSpec)
unfolding file_scrape_metric_ids_for
file_scrape_metric_specs source labels = file_scrape_metric_ids_for source >>= λ ids. ok (
    record {
      id = ids.mtime_seconds;
      scope = feature;
      name = codes "_" ++ source ++ codes "_mtime_seconds";
      help = codes "Unix timestamp of the " ++ source ++ codes " source file modification time.";
      labels = labels;
    }
    ∷ record {
      id = ids.up;
      scope = feature;
      name = codes "_" ++ source ++ codes "_up";
      help =
          codes "Whether the "
          ++ source
          ++ codes " source was readable during the last collection.";
      labels = labels;
    }
    ∷ record {
      id = ids.valid;
      scope = feature;
      name = codes "_" ++ source ++ codes "_valid";
      help =
          codes "Whether the "
          ++ source
          ++ codes " source produced valid data during the last collection.";
      labels = labels;
    }
    ∷ record {
      id = ids.read_errors_total;
      scope = feature;
      name = codes "_" ++ source ++ codes "_read_errors_total";
      help = codes "Cumulative total number of " ++ source ++ codes " source read errors.";
      labels = labels;
    }
    ∷ record {
      id = ids.parse_errors_total;
      scope = feature;
      name = codes "_" ++ source ++ codes "_parse_errors_total";
      help =
          codes "Cumulative total number of "
          ++ source
          ++ codes " source parse or validity errors.";
      labels = labels;
    }
    ∷ record {
      id = ids.scrape_duration_seconds;
      scope = feature;
      name = codes "_" ++ source ++ codes "_scrape_duration_seconds";
      help = codes "Duration in seconds of the last " ++ source ++ codes " source scrape.";
      labels = labels;
    }
    ∷ [])

-- `Descs`
unfoldable pub file_scrape_descs :
    {D : Type 0}
    → FileScrapeMetricIds
    → Descriptors D
    → Result MetricPanic (FileScrapeMetricDescs D)
file_scrape_descs ids descs = get_desc descs ids.mtime_seconds >>= λ mtime.
    get_desc descs ids.up >>= λ up. get_desc descs ids.valid >>= λ valid.
    get_desc descs ids.read_errors_total >>= λ read_errors_total.
    get_desc descs ids.parse_errors_total >>= λ parse_errors_total.
    get_desc descs ids.scrape_duration_seconds >>= λ scrape_duration. ok (record {
      mtime_desc = mtime;
      up_desc = up;
      valid_desc = valid;
      read_errors_total_desc = read_errors_total;
      parse_errors_total_desc = parse_errors_total;
      scrape_duration_desc = scrape_duration;
    })
