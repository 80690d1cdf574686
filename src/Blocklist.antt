-- ===== src/Blocklist.antt =====
-- blocklist/: which names are blocked.
pub mod Matcher
