-- ===== src/Adapters.antt =====
-- packages/adapters: the implementations of the ports.
pub mod Fingerprint
pub mod Evidence
pub mod IdempotencyStore
pub mod Marketplace
pub mod Discovery
