-- ===== src/Quality.antt =====
-- services/api/quality: reconciliation of conflicting metadata, merges of titles, and verification.
pub mod Reconciliation
pub mod Merge
pub mod Verification
