-- ===== src/Middleware.antt =====
-- Package internal/api/middleware.
pub mod Auth
pub mod Logging
pub mod RateLimit
