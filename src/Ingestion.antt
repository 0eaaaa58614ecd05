-- ===== src/Ingestion.antt =====
-- services/api/ingestion: the licensing gate in front of every source.
pub mod Licensing
