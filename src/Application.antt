-- ===== src/Application.antt =====
-- packages/application: the use cases and their ports.
pub mod Evidence
pub mod Payment
pub mod Idempotency
pub mod Marketplace
pub mod Discovery
