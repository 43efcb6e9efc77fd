-- ===== src/Telemetry.antt =====
-- internal/telemetry: logs, metrics and the sending of both. `Slog` (log/slog's part), `Log`
-- (log.go), `Metrics` (metrics.go) and `Setup` (telemetry.go).
pub mod Slog
pub mod Log
pub mod Redacted
pub mod Teed
pub mod Metrics
pub mod Setup
pub mod Stopping
