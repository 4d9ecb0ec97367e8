-- ===== src/Files/Metrics.antt =====
-- `FileScrapeMetrics` of exporter/internal/files/file_scrape.go: the metrics of a scraped file. A
-- descriptor that is `nil` is `none`, and so is a counter; the counters are places in a store. A
-- metric is the arguments of `prometheus.MustNewConstMetric`.
pub mod Once
use prometheus_exporter_fram.Prelude.{ℕ, Bool, Option, none, some, List, [], ◌∷◌, ◌++◌, or_else}
use prometheus_exporter_fram.Clock.{Time, Duration}
use prometheus_exporter_fram.Text.{Text}
use prometheus_exporter_fram.Metrics.Values.{
  Metric, ValueType, gauge, counter, ValueOps, bool_float,
}
use prometheus_exporter_fram.Files.Scraper.{Store, ScrapeResult, since, add_counter}

pub record FileScrapeMetrics (D F : Type 0) : Type 0 where
  pub path : Text
  pub label_values : List Text
  pub mtime_desc : Option D
  pub up_desc : Option D
  pub valid_desc : Option D
  pub read_errors_total_desc : Option D
  pub parse_errors_total_desc : Option D
  pub scrape_duration_desc : Option D
  pub read_errors_total : Option ℕ
  pub parse_errors_total : Option ℕ
  pub file_modification_seconds : Option (Text → F)

abbrev pub described : {D : Type 0} → Option D → List D
described none = []
described (some d) = d ∷ []

-- `Describe`
unfoldable pub describe : {D F : Type 0} → FileScrapeMetrics D F → List D
describe m =
    described m.mtime_desc
    ++ (described m.up_desc
        ++ (described m.valid_desc
            ++ (described m.read_errors_total_desc
                ++ (described m.parse_errors_total_desc ++ described m.scrape_duration_desc))))

-- a metric, if its descriptor is there
abbrev pub written : {D F : Type 0} → Option D → ValueType → F → List Text → List (Metric D F)
written none type value labels = []
written (some d) type value labels =
    record { desc = d; type = type; value = value; label_values = labels } ∷ []

-- a counter's metric, if its descriptor and the counter are there
abbrev pub written_total :
    {D F : Type 0} → Option D → Option ℕ → (ℕ → F) → Store → List Text → List (Metric D F)
written_total desc none of_int store labels = []
written_total desc (some c) of_int store labels = written desc counter (of_int (store c)) labels

module _ {D F : Type 0} (os_mtime : Text → F) (seconds : Duration → F) (values : ValueOps F) where
  -- `Begin`: what it writes
  abbrev pub begin : FileScrapeMetrics D F → List (Metric D F)
  begin m =
      written m.mtime_desc gauge (or_else m.file_modification_seconds os_mtime m.path)
        m.label_values

  -- what the function that `Begin` returns writes
  unfoldable pub finish : FileScrapeMetrics D F → Time → Time → Store → List (Metric D F)
  unfolding since
  finish m start now store =
      written m.scrape_duration_desc gauge (seconds (since start now)) m.label_values
      ++ (written_total m.read_errors_total_desc m.read_errors_total values.of_int store
            m.label_values
          ++ written_total m.parse_errors_total_desc m.parse_errors_total values.of_int store
              m.label_values)

-- `CollectResult`
unfoldable pub collect_result :
    {D E F : Type 0} → ValueOps F → FileScrapeMetrics D F → ScrapeResult E F → List (Metric D F)
collect_result values m r =
    written m.mtime_desc gauge r.mtime_seconds m.label_values
    ++ (written m.up_desc gauge (bool_float values r.up) m.label_values
        ++ (written m.scrape_duration_desc gauge r.scrape_duration_seconds m.label_values
            ++ (written m.read_errors_total_desc counter (values.of_int r.read_errors_total)
                  m.label_values
                ++ written m.parse_errors_total_desc counter (values.of_int r.parse_errors_total)
                    m.label_values)))

-- `CollectValid`
abbrev pub collect_valid :
    {D F : Type 0} → ValueOps F → FileScrapeMetrics D F → Bool → List (Metric D F)
collect_valid values m valid = written m.valid_desc gauge (bool_float values valid) m.label_values

-- `AddReadError` and `AddParseError`
abbrev pub add_read_error : {D F : Type 0} → FileScrapeMetrics D F → Store → Store
add_read_error m store = add_counter m.read_errors_total store

abbrev pub add_parse_error : {D F : Type 0} → FileScrapeMetrics D F → Store → Store
add_parse_error m store = add_counter m.parse_errors_total store
