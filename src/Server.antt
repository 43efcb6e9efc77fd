-- ===== src/Server.antt =====
-- internal/server: the two listeners. `Lifecycle` (Start, serve, Shutdown of server.go) and `Exposed`
-- (exposedMux).
pub mod Lifecycle
pub mod Together
pub mod Exposed
