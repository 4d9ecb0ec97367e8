-- ===== src/Metrics.antt =====
-- The metrics of features: exporter/featurekit/metrics.go and the standard families beside it.
pub mod Values
pub mod Descriptors
pub mod Emitted
pub mod TtlCacheMetrics
pub mod LastKnownGoodMetrics
pub mod FileScrapeMetrics
