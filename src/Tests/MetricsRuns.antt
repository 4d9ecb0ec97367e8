-- ===== src/Tests/MetricsRuns.antt =====
-- Descriptors that are triples of a name, a help text and labels; and counters in shared places.
use prometheus_exporter_fram.Prelude.{
  nat_beq, length, none, some, Bool, if◌then◌else◌, Bool, true, nat_beq, ℕ, ◌+◌, ◌≡◌, refl, List,
  [], ◌∷◌, some, none, pos, negsuc, true, ok, err, Option, Result, map, ◌&&◌, ◌>>=◌, ◌%◌, ◌^◌, ◌++◌,
}
use prometheus_exporter_fram.Clock.{Duration}
use prometheus_exporter_fram.Text.{Text, codes, trim_space, is_space}
use prometheus_exporter_fram.Assoc.{lookup, insert, erase}
use prometheus_exporter_fram.LastKnownGood as LastKnownGood
use prometheus_exporter_fram.TtlCache.{Stats}
use prometheus_exporter_fram.Metrics.Values.{ValueOps}
use prometheus_exporter_fram.Metrics.Descriptors.{
  validate_specs, load_loop, metric_name, MetricSpec, unknown_descriptor, invalid_const_metric,
  Descriptors, feature, namespace, desc_of, load, describe, get_desc,
}
use prometheus_exporter_fram.Metrics.Descriptors.Loading.{
  is_ok, fresh, ids, names, found, load_iff, load_lem,
}
use prometheus_exporter_fram.Metrics.TtlCacheMetrics.{
  ttl_cache_metric_specs, collect_ttl_cache_metrics,
}
use prometheus_exporter_fram.Metrics.TtlCacheMetrics.Shown.{shown_metrics, collect-load}
use prometheus_exporter_fram.Metrics.LastKnownGoodMetrics.{
  last_known_good_metric_ids_for, last_known_good_metric_specs, collect_last_known_good_metrics,
}
use prometheus_exporter_fram.Metrics.LastKnownGoodMetrics.Shown.{shown_gauges, collect_gauges-load}
use prometheus_exporter_fram.Metrics.FileScrapeMetrics.{
  file_scrape_metric_ids_for, file_scrape_metric_specs, file_scrape_descs,
}
use prometheus_exporter_fram.Metrics.FileScrapeMetrics.Named.{source_desc, file_scrape_descs-load}
use prometheus_exporter_fram.Files.Scraper.{Store, FileScraper}
use prometheus_exporter_fram.Files.Counters.{Request, run, counted, run-counted}
use prometheus_exporter_fram.Files.Scraper.{ScrapeResult}
use prometheus_exporter_fram.Files.Metrics.{FileScrapeMetrics, finish, describe as describe_file}

abbrev triple : Text → Text → List Text → Text × Text × List Text
triple name help labels = (name, help, labels)

abbrev demo : Text
demo = codes "demo"

abbrev space : Text
space = codes "ns"

abbrev two_specs : List MetricSpec
two_specs =
    record { id = codes "a"; scope = feature; name = codes "_a"; help = []; labels = [] }
    ∷ record { id = codes "b"; scope = namespace; name = codes "_a"; help = []; labels = [] }
    ∷ []

load_iff_example :
    is_ok (load triple demo space two_specs)
    ≡ fresh [] (ids two_specs) && fresh [] (names triple demo space two_specs)
load_iff_example = load_iff triple demo space two_specs

abbrev two_descriptors : Descriptors (Text × Text × List Text)
two_descriptors = record {
  order = codes "a" ∷ codes "b" ∷ [];
  descs = (codes "b", (codes "ns_a", [], [])) ∷ (codes "a", (codes "demo_a", [], [])) ∷ [];
}

load_lem_example :
    (describe two_descriptors ≡ ok (map (desc_of triple demo space) two_specs))
    × ((k : Text)
        → get_desc two_descriptors k ≡ elim (found triple demo space k two_specs) [
          | none ↦ err (unknown_descriptor k)
          | some desc ↦ ok desc
        ])
unfolding load validate_specs load_loop metric_name lookup insert erase
load_lem_example = load_lem triple demo space two_specs two_descriptors refl

abbrev seven : Stats
seven = record { entries = 1; hits = 2; misses = 3; sets = 4; deletes = 5; expired = 6; clears = 7 }

-- a descriptor that accepts as many values as it has labels
abbrev same_number : Text × Text × List Text → List Text → Bool
same_number (name, help, labels) values = nat_beq (length labels) (length values)

collect-load_example :
    (load triple demo space (ttl_cache_metric_specs (codes "zone" ∷ [])) >>= λ d.
    ok (collect_ttl_cache_metrics (λ n. n) same_number d (codes "main") seven (codes "eu" ∷ [])))
    ≡ ok (
        if nat_beq (length (codes "zone" ∷ [])) (length (codes "eu" ∷ []))
        then (
          shown_metrics triple demo space
              (codes "zone" ∷ [])
              (λ n. n)
              (codes "main")
              (codes "eu" ∷ [])
              seven,
          none,
        )
        else ([], some invalid_const_metric))
collect-load_example =
    collect-load triple demo space (codes "zone" ∷ []) (λ n. n) same_number (codes "main")
      (codes "eu" ∷ []) seven (refl, (refl, (refl, (refl, (refl, (refl, (refl, tt)))))))

abbrev counts : ValueOps ℕ
counts = record { of_int = λ n. n; unix_nano = λ t. t }

abbrev stale_seven : LastKnownGood.Result ℕ
stale_seven = record {
  value = 7;
  available = true;
  stale = true;
  last_success = 101;
  last_attempt = 104;
  consecutive_failures = 2;
}

abbrev source : Text
source = codes "quotes"

collect_gauges-load_example :
    (last_known_good_metric_ids_for source >>= λ ids.
    last_known_good_metric_specs source [] >>= λ specs. load triple demo space specs >>= λ d.
    ok (collect_last_known_good_metrics counts same_number d ids stale_seven (codes "eu" ∷ [])))
    ≡ ok (
        if nat_beq 0 (length (codes "eu" ∷ []))
        then (shown_gauges triple counts demo space source [] (codes "eu" ∷ []) stale_seven, none)
        else ([], some invalid_const_metric))
unfolding trim_space is_space
collect_gauges-load_example =
    collect_gauges-load triple counts demo space source [] same_number (codes "eu" ∷ []) stale_seven
      (refl, (refl, (refl, (refl, tt)))) refl

file_scrape_descs-load_example :
    (file_scrape_metric_ids_for source >>= λ ids. file_scrape_metric_specs source [] >>= λ specs.
    load triple demo space specs >>= λ d. file_scrape_descs ids d)
    ≡ ok (record {
      mtime_desc =
          source_desc triple demo space source []
            (codes "_mtime_seconds")
            (codes "Unix timestamp of the " ++ source ++ codes " source file modification time.");
      up_desc = source_desc triple demo space source [] (codes "_up") (
          codes "Whether the "
          ++ source
          ++ codes " source was readable during the last collection.");
      valid_desc = source_desc triple demo space source [] (codes "_valid") (
          codes "Whether the "
          ++ source
          ++ codes " source produced valid data during the last collection.");
      read_errors_total_desc =
          source_desc triple demo space source []
            (codes "_read_errors_total")
            (codes "Cumulative total number of " ++ source ++ codes " source read errors.");
      parse_errors_total_desc =
          source_desc triple demo space source [] (codes "_parse_errors_total") (
            codes "Cumulative total number of "
            ++ source
            ++ codes " source parse or validity errors.");
      scrape_duration_desc =
          source_desc triple demo space source []
            (codes "_scrape_duration_seconds")
            (codes "Duration in seconds of the last " ++ source ++ codes " source scrape.");
    })
unfolding trim_space is_space
file_scrape_descs-load_example = file_scrape_descs-load triple demo space source [] refl

-- One place for both counters, a file that cannot be read and one with a content that is refused.
abbrev shared : FileScraper ℕ ℕ ℕ
shared = record {
  read_errors_total = some 0;
  parse_errors_total = some 0;
  read_file = none;
  file_modification_seconds = none;
}

abbrev read_number : Text → Result ℕ ℕ
read_number [] = err 0
read_number (c ∷ s) = ok c

abbrev whole_seconds : Duration → ℕ
whole_seconds (pos n) = n
whole_seconds (negsuc n) = 0

abbrev refuse_all : Option (ℕ → Option ℕ)
refuse_all = some (λ n. some n)

abbrev requests : List (Request ℕ ℕ)
requests =
    record { path = []; parse = none; start = 5; finish = 8 }
    ∷ record { path = demo; parse = refuse_all; start = 9; finish = 10 }
    ∷ []

abbrev zeros : Store
zeros = λ d. 0

run-counted_example :
    run read_number (λ path. 1) whole_seconds 0 shared requests zeros 0 % 2 ^ 64
    ≡ (zeros 0 + counted read_number (λ path. 1) whole_seconds 0 shared 0 requests) % 2 ^ 64
run-counted_example = run-counted read_number (λ path. 1) whole_seconds 0 shared requests zeros 0

-- a file's metrics without a descriptor for the validity, and with one counter of two
abbrev file_metrics : FileScrapeMetrics ℕ ℕ
file_metrics = record {
  path = demo;
  label_values = [];
  mtime_desc = some 1;
  up_desc = some 2;
  valid_desc = none;
  read_errors_total_desc = some 3;
  parse_errors_total_desc = some 4;
  scrape_duration_desc = some 5;
  read_errors_total = some 0;
  parse_errors_total = none;
  file_modification_seconds = none;
}

abbrev file_result : ScrapeResult ℕ ℕ
file_result = record {
  path = demo;
  up = true;
  mtime_seconds = 1;
  read_errors_total = 2;
  parse_errors_total = 3;
  scrape_duration_seconds = 4;
  error = none;
}

abbrev third : ℕ → Bool
third d = nat_beq d 3
