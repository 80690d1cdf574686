-- ===== src/Security.antt =====
-- security/: what answers are kept, and who may ask.
pub mod Bailiwick
pub mod Acl
