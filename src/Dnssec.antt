-- ===== src/Dnssec.antt =====
-- dnssec/: proofs of denial.
pub mod Nsec
