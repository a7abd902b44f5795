-- ===== src/Llm.antt =====
-- Package internal/llm.
pub mod Router
