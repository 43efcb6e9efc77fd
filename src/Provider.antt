-- ===== src/Provider.antt =====
-- internal/provider: the domain logic. `Types` (types.go), `Zoneindex` (zoneindex.go), `Txt` and
-- `Validate` (validate.go), `Adjust` (adjust.go), `Backend` (ports.go), `Service` (provider.go),
-- `Apply` (apply.go), `Observed` (both of them with logs and metrics) and `Fake`
-- (providertest/fake.go).
pub mod Types
pub mod Zoneindex
pub mod Txt
pub mod Adjust
pub mod Validate
pub mod Backend
pub mod Service
pub mod Apply
pub mod Ownership
pub mod Reading
pub mod Settled
pub mod Format
pub mod Writing
pub mod Observed
pub mod Observing
pub mod Parts
pub mod Grouping
pub mod Splitting
pub mod Totals
pub mod Distinct
pub mod Counting
pub mod Counted
pub mod Fake
pub mod Asked
pub mod Exclusive
pub mod Alone
