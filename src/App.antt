-- ===== src/App.antt =====
-- exporter/internal/app: the command line, the registry, the handler and the metadata of an
-- exporter.
pub mod Names
pub mod Injected
pub mod TelemetryPath
pub mod Version
pub mod Handler
pub mod Startup
pub mod CommandLine
pub mod Shutdown
