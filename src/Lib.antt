-- ===== src/Lib.antt =====
-- The core of prometheus-exporter-framework: the caches, collectors, registration, checks and
-- metrics that exporters are built of, translated from the Go sources, with the theorems that make
-- them correct.
--
-- The parts and their files:
--   * TtlCache.antt: `TTLCache` (exporter/featurekit/ttl_cache.go). Each method takes the pointer
--     (`none` is `nil`) and the readings of the clock. `Get` locks twice; `read` and `expire` are its
--     two critical sections. TtlCache/View has the abstract cache, Sweep the clean-up of `Len` and
--     `Stats`, Accounts the counters, and Races the calls that come between the two sections. There
--     the second section of a `Get` may run more than once, which allows more than the code does.
--   * LastKnownGood.antt: `LastKnownGood` (exporter/featurekit/last_known_good.go). History compares
--     it with the list of attempts, Snapshots relates its two readers.
--   * Snapshot: `SnapshotCollector` (exporter/internal/snapshot/snapshot.go), which caches the last
--     collection for scrapes and refreshes it in the background. Histogram.antt has the duration
--     histogram; Collector.antt one function per critical section; Scrape.antt `Collect`'s reading of
--     the cache by one thread; System.antt any number of scrapes and loops as a step relation, where
--     a step is a critical section and a collection runs outside the lock; the condition variable is
--     the number of its broadcasts, and a thread that waits needs one that is newer. System/Exclusion,
--     System/Wakeups, System/Progress and System/Replay have its invariants. Emission.antt has the metrics that
--     `Describe` and `Collect` write.
--   * Registration.antt: `RegisterCollectors` and `RegisterAndStartCollectors`
--     (exporter/internal/feature/feature.go). The registry of client_golang is a record of operations
--     with the laws that its documentation gives, for checked and for unchecked collectors.
--     Registration/Functions.antt has `CollectorFeature`.
--   * FeatureKit.antt: the generic `Feature` (exporter/featurekit/feature.go), which prepares its
--     configuration once and registers its collector through Registration.antt. Beside it, of
--     exporter/featurekit: FeatureKit/Snapshot.antt, snapshot features and their collectors
--     (snapshot.go); FeatureKit/Extension.antt and FeatureKit/Extended.antt, features from an
--     extension, with the state of its config file, and FeatureKit/ConfigFile.antt, the loading of
--     that file (extension.go); FeatureKit/Contract.antt (contract.go); FeatureKit/Flags.antt, the
--     flags (config_flags.go). FeatureKit/Framework.antt makes a generic feature one of those that
--     App/Startup.antt registers.
--   * Metrics: the specs and descriptors of a feature's metrics (exporter/featurekit/metrics.go) and
--     the families built on them (exporter/featurekit/ttl_cache_metrics.go,
--     last_known_good_metrics.go and file_scrape_metrics.go beside it), with the values of
--     exporter/internal/metric/value.go. A panic is an error of type `MetricPanic`;
--     Metrics/Emitted.antt has that of `MustNewConstMetric`.
--   * Files: `FileScraper` (exporter/internal/files/file_scrape.go and file.go beside it). A counter
--     is a place in a store, since callers may share one. Files/Metrics.antt has `FileScrapeMetrics`.
--   * App: the configuration and its defaults (exporter/internal/app/config.go, Names.antt), the
--     check of the metrics path (telemetry_path.go there, TelemetryPath.antt), the version metadata
--     (version.go there, Version.antt), the HTTP handler (handler.go there; its routes in Handler.antt,
--     its answers in Handler/Answers.antt) and the injected project metadata (injected.go there and
--     exporter/injected.go, Injected.antt). Startup.antt and CommandLine.antt go from the command
--     line over the checks and the registration of the features to the options of the handler
--     (registry.go, server.go and cli.go there); a feature is known by the record `FeatureOps` of its
--     methods. Shutdown.antt has the end of serving, `listenAndServeContext`, as a step relation.
--   * Report.antt: the runtime configuration that features report, with its reader
--     `RuntimeConfigValue`; Harness.antt, what tests read of gathered metrics, Harness/Smoke.antt,
--     the configuration of smoke tests, with the test of a server in Harness/Smoke/Server.antt, and
--     Harness/FeatureSuite.antt, the registration of a feature's tests with the names and reports
--     that they expect (exporter/exportertest/exportertest.go, and smoketest/smoketest.go and
--     featuretest/suite.go there).
--   * Docsgen.antt: the generator of the reference (internal/docsgen/main.go), with the expansion of
--     Makefile variables; Docsgen/Reference.antt has the document.
--   * SymbolDiff.antt: the comparison of the declarations of two Go files
--     (scaffold/scripts/go-symbol-diff.go).
--   * Prelude, Clock, Assoc, Text and Lines: what the parts share.
--   * Tests: the theorems at concrete inputs.
--
-- How Go is modelled: an instant is a number of nanoseconds since the zero `Time`, so `IsZero` is a
-- test for 0; a duration is a signed number, and `Sub` saturates as Go's does. A `uint64` counter is
-- a number and its additions are taken modulo 2^64. A map is an association list with distinct keys.
-- A text is the list of its code points. Floats, registries, `url.ParseRequestURI`,
-- `net.SplitHostPort`, the clashes of `http.ServeMux`, `prometheus.NewDesc`, `prometheus.DefBuckets`,
-- the file system, the YAML decoder, the parsing of flags and of Go files, and the functions that a
-- feature supplies are parameters. A metric is the arguments of the call that makes it. Loops are
-- over lists, but for the passes of `expandMakeVariables`, which have fuel: with variables that refer
-- only to ones of a lower rank, and no other dollar signs than those of references and of calls such
-- as `$(abspath ..)`, one pass more than the highest rank is enough.
--
-- Not modelled: logging, the parsing of flags, `Main` with its signals, the HTTP server and the
-- answers of the libraries' handlers, the aliases of the public packages, the bodies of the tests of
-- featuretest and the helpers that build and run programs, the searches of files by the generator,
-- and the scaffold's templates.
pub mod App
pub mod Assoc
pub mod Clock
pub mod Docsgen
pub mod FeatureKit
pub mod Files
pub mod Harness
pub mod LastKnownGood
pub mod Lines
pub mod Metrics
pub mod Prelude
pub mod Registration
pub mod Report
pub mod Snapshot
pub mod SymbolDiff
pub mod Tests
pub mod Text
pub mod TtlCache
