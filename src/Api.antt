-- ===== src/Api.antt =====
-- Package internal/api.
pub mod Encoding
pub mod Handlers
pub mod Router
pub mod Schema
