-- ===== src/Webhooks.antt =====
-- The webhooks: backend/webhooks/service.py, worker.py and security.py.
pub mod Store
pub mod Enqueue
pub mod Secrets
pub mod Fanout
pub mod Security
pub mod Worker
pub mod Delivery
pub mod Rounds
