-- ===== src/Composed.antt =====
-- The parts together: the domain logic of internal/provider over the client of internal/dpf.
pub mod Failing
pub mod Zones
pub mod Grouped
pub mod Published
pub mod Repeats
