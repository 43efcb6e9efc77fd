-- ===== src/Config.antt =====
-- internal/config: the settings. `Flags` (newFlagSet, and what Load uses of the package flag) and
-- `Settings` (config.go's types, build and Load).
pub mod Flags
pub mod Settings
pub mod Reading
pub mod Loading
pub mod Undefined
