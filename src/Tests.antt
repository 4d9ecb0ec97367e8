-- ===== src/Tests.antt =====
-- The theorems at concrete inputs.
mod TtlCacheRuns
mod LastKnownGoodRuns
mod SnapshotRuns
mod RegistrationRuns
mod AppRuns
mod MetricsRuns
mod ToolRuns
mod StartRuns
mod SuiteRuns
mod FeatureRuns
