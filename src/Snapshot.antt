-- ===== src/Snapshot.antt =====
-- exporter/internal/snapshot/snapshot.go: the snapshot collector, a cache of the last snapshot that
-- a background loop or a scrape refreshes.
pub mod Histogram
pub mod Collector
pub mod System
pub mod Scrape
pub mod Emission
