-- ===== src/Tests.antt =====
-- Runs of the definitions on concrete inputs, and the theorems at such inputs.
mod Ends
mod Names
mod Samples
mod Message
mod Security
mod Rules
mod Resolver
mod Cache
mod Sweep
mod Dnssec
mod Inflight
mod Iterate
mod Resolve
mod Bogus
