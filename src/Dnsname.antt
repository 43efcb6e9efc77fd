-- ===== src/Dnsname.antt =====
-- internal/dnsname: canonical names (name.go) and the range of names that domains span (scope.go).
-- The operations on names are those of github.com/miekg/dns, a parameter of every definition.
pub mod Name
pub mod Scope
pub mod Suffix
pub mod Laws
pub mod Longest
