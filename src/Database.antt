-- ===== src/Database.antt =====
-- Package internal/database.
pub mod Connection
pub mod JobStore
pub mod TenantStore
pub mod WebhookStore
