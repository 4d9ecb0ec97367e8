-- ===== src/Files.antt =====
-- exporter/internal/files: the scrape of a file, with its error counters, and the metrics of it.
pub mod Scraper
pub mod Counters
pub mod Metrics
