-- ===== src/Dns.antt =====
-- dns/: the wire format of DNS messages.
pub mod Wire
pub mod Name
pub mod Message
pub mod Rdata
pub mod Edns
pub mod Record
