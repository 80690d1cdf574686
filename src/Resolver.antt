-- ===== src/Resolver.antt =====
-- resolver/: reading the answers of name servers.
pub mod Classify
pub mod Qmin
pub mod Inflight
pub mod Cname
pub mod SpecialUse
pub mod Infra
pub mod Upstream
pub mod Delegation
pub mod World
pub mod Servers
pub mod Replies
pub mod Iterate
pub mod LocalZone
pub mod Forward
pub mod Resolve
pub mod Internal
