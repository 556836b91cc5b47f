-- ===== src/Webhook.antt =====
-- The events of the payment and custody providers: api/versions/v1/handlers/webhook_router.py and
-- api/webhooks/handlers.py.
pub mod Paycrest
pub mod Latest
pub mod Withdraw
mod Tests
