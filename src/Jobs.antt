-- ===== src/Jobs.antt =====
-- Package internal/jobs.
pub mod Merge
pub mod Worker
