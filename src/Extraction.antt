-- ===== src/Extraction.antt =====
-- Package internal/extraction.
pub mod Chunker
