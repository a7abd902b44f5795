-- ===== src/Webhook.antt =====
-- Package internal/webhook.
pub mod Deliverer
