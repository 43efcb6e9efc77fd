-- ===== src/Dpf.antt =====
-- internal/dpf: the boundary to the DPF API. `Rrtype` (rrtype.go), `Wire` (the record form that is
-- submitted), `Merge` and `Guard` (merge.go), `Label` (label.go), `Classify` (errors.go), `Lock`
-- (lock.go), `Apply` (apply.go), `Read` (records.go, zone.go, history.go) and `Client`
-- (client.go, token.go). What is called of
-- github.com/iij/dpf-go is a parameter.
pub mod Rrtype
pub mod Wire
pub mod Merge
pub mod Guard
pub mod Label
pub mod Classify
pub mod Lock
pub mod Apply
pub mod Read
pub mod Client
pub mod Content
pub mod Membership
pub mod Preserved
pub mod Labelled
pub mod Guarded
pub mod Editing
pub mod Classified
pub mod Waiting
pub mod Applying
pub mod Keyed
pub mod Succeeding
pub mod Published
pub mod Removed
pub mod Ordered
pub mod Repeats
pub mod Failing
pub mod Skipping
