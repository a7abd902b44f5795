-- ===== src/Ingestion.antt =====
-- Package internal/ingestion.
pub mod Detector
pub mod Extractor
