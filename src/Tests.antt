-- ===== src/Tests.antt =====
-- Examples that the theorems apply to.
mod ExampleDns
mod Examples
mod Merging
mod Naming
mod Serving
mod Applying
mod Starting
mod Observed
mod Asking
mod Running
mod Storing
mod Publishing
mod Requesting
